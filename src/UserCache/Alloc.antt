-- ===== src/UserCache/Alloc.antt =====
-- Taking and dropping references to users.
use osandroid_kernel.Prelude.{
  ℕ, ◌^◌, ltb, ◌≡◌, refl, inl, inr, ◌&&◌, Option, none, some, List, [], ◌∷◌, arith, ◌==◌,
  if◌then◌else◌, Option-cases, ==-refl, ap,
}
use osandroid_kernel.Prelude.Int.{pos, ◌+ℤ◌, ◌-ℤ◌, ◌<ℤ◌, int_laws}
use osandroid_kernel.UserCache.{
  Ptr, User, Call, put_user_ns, get_user_ns, key_put, kmem_cache_free, Hlist, World, new_user,
  set_user, set_head, with_ref, uidhashfn, find_in, uid_hash_insert, uid_hash_remove, uid_hash_find,
  free_user, find_user, free_uid, root_user, uid_cache_init, alloc_new, alloc_uid,
}
use osandroid_kernel.UserCache.Table.{
  Hashed, IsTable, IsUnhashed, find_in-some, find_in-none, find_in_unique, in_list-without,
  take_ref-IsTable, drop_ref-IsTable, in_list-without, fill-IsTable, insert-IsTable, remove-IsTable,
  find_in-eq-none,
}

module _ {hl : Hlist} (bits : ℕ) where
  -- What a caller of `alloc_uid` and `find_user` gets: a hashed user with the uid, in sound tables.
  pub record Gets (ns : Ptr) (uid : ℕ) (r : Option Ptr × World hl) : Type 0 where
    pub got : Ptr
    pub returned : r.0 ≡ some got
    pub hashed : Hashed bits r.1 ns (uidhashfn bits uid) got
    pub uid_of : (r.1.user got).uid ≡ uid
    pub sound : IsTable bits r.1

  found :
      (uid : ℕ) (h : hl.Head) (w : World hl) (p : Ptr)
      → find_in w.user uid (hl.entries h) ≡ some p
      → uid_hash_find bits uid h w ≡ (some p, with_ref p w)
  unfolding uid_hash_find
  found uid h w p e = rw (e, uid_hash_find)

  missed :
      (uid : ℕ) (h : hl.Head) (w : World hl)
      → find_in w.user uid (hl.entries h) ≡ none
      → uid_hash_find bits uid h w ≡ (none, w)
  unfolding uid_hash_find
  missed uid h w e = rw (e, uid_hash_find)

  hit :
      (ns : Ptr) (uid : ℕ) (w : World hl) (p : Ptr) (log : List Call)
      → IsTable bits w
      → find_in w.user uid (hl.entries (w.table ns (uidhashfn bits uid))) ≡ some p
      → Gets ns uid (some p, record (with_ref p w) { log = log })
  hit ns uid w p log t e = record {
    got = p;
    returned = refl;
    hashed = (find_in-some w.user uid _ e).0;
    uid_of =
        ground (arith, find_in-some w.user uid (hl.entries (w.table ns (uidhashfn bits uid))) e);
    sound = take_ref-IsTable bits w p log t;
  }

  alloc_new-Gets :
      (q ns : Ptr) (uid : ℕ) (w : World hl)
      → IsTable bits w
      → IsUnhashed bits w q
      → Gets ns uid (alloc_new bits q ns uid w)
  unfolding alloc_new uid_hash_insert
  alloc_new-Gets q ns uid w t out =
      elim (Option-cases (find_in user uid (hl.entries (w.table ns (uidhashfn bits uid))))) [
        | inr (p, e) ↦
            rw (found uid _ (record w { user = user; log = log }) p e, alloc_new)
              (hit ns uid (record w { user = user; log = log }) p _ filled e)
        | inl e ↦
            rw (missed uid _ (record w { user = user; log = log }) e, alloc_new)
              (record {
                got = q;
                returned = refl;
                hashed = ground (arith, hl.entries-add_head q (w.table ns (uidhashfn bits uid)));
                uid_of = ground arith;
                sound =
                    insert-IsTable bits (record w { user = user; log = log }) q ns
                      (uidhashfn bits uid) filled (ground arith) (ground arith) (ground arith)
                      (λ p m. ground (
                        arith,
                        find_in-none user uid (hl.entries (w.table ns (uidhashfn bits uid))) p,
                      ));
              })
      ]
    where
      user : Ptr → User
      user = set_user q (new_user ns uid) w.user

      log : List Call
      log = get_user_ns ns ∷ w.log

      filled : IsTable bits (record w { user = user; log = log })
      filled = fill-IsTable bits w q (new_user ns uid) log t out

  -- `alloc_uid` with memory at hand returns a hashed user with the uid, whatever other processors do
  -- to sound tables while the lock is free, if they leave the fresh user alone.
  pub alloc_uid-Gets :
      (others : World hl → World hl) (q ns : Ptr) (uid : ℕ) (w : World hl)
      → IsTable bits w
      → IsTable bits (others w)
      → IsUnhashed bits (others w) q
      → Gets ns uid (alloc_uid bits others (some q) ns uid w)
  unfolding alloc_uid
  alloc_uid-Gets others q ns uid w t t' out =
      elim (Option-cases (find_in w.user uid (hl.entries (w.table ns (uidhashfn bits uid))))) [
        | inr (p, e) ↦ rw (found uid _ w p e, alloc_uid) (hit ns uid w p w.log t e)
        | inl e ↦ rw (missed uid _ w e, alloc_uid) (alloc_new-Gets q ns uid (others w) t' out)
      ]

  -- A user that is hashed is found, and gets one more reference.
  pub find_user_lem :
      (ns : Ptr) (uid : ℕ) (w : World hl) (p : Ptr)
      → IsTable bits w
      → Hashed bits w ns (uidhashfn bits uid) p
      → (w.user p).uid ≡ uid
      → find_user bits ns uid w ≡ (some p, with_ref p w)
  unfolding find_user
  find_user_lem ns uid w p t m e = found uid _ w p (
      find_in_unique w.user uid (hl.entries (w.table ns (uidhashfn bits uid))) p m e
        (λ q mq eq. t.distinct ns (uidhashfn bits uid) q p mq m (ground arith)))

  -- What is left of the state when the last reference to `p` goes.
  abbrev removed : World hl → Ptr → World hl
  removed w p =
      let u = w.user p in
      let b = uidhashfn bits u.uid in
      record w {
        user = set_user p (record u { count = pos 0 }) w.user;
        table = set_head u.user_ns b (hl.del_init p (w.table u.user_ns b)) w.table;
        log =
            kmem_cache_free p
            ∷ key_put u.session_keyring
            ∷ key_put u.uid_keyring
            ∷ put_user_ns u.user_ns
            ∷ w.log;
      }

  free_uid-eq-removed :
      (w : World hl) (p : Ptr) → (w.user p).count ≡ pos 1 → free_uid bits (some p) w ≡ removed w p
  unfolding free_uid free_user uid_hash_remove ◌-ℤ◌
  free_uid-eq-removed w p one = rw (one, ==-refl p)

  -- The last reference takes the user out of its table: the tables stay sound, and no later look-up
  -- finds the uid.
  pub free_uid_last :
      (ns : Ptr) (uid : ℕ) (w : World hl) (p : Ptr)
      → IsTable bits w
      → Hashed bits w ns (uidhashfn bits uid) p
      → (w.user p).uid ≡ uid
      → (w.user p).count ≡ pos 1
      → let w' = free_uid bits (some p) w in
        IsTable bits w' × (find_user bits ns uid w' ≡ (none, w'))
  unfolding find_user
  free_uid_last ns uid w p t m e one = rw (free_uid-eq-removed w p one) (
    remove-IsTable bits w p (removed w p).log t,
    missed uid _ (removed w p) (
        find_in-eq-none _ uid _ (λ q mq eq. ground (
          arith,
          t.placed ns (uidhashfn bits uid) p m,
          t.distinct ns (uidhashfn bits uid) q p,
          hl.entries-del_init p (w.table ns (uidhashfn bits uid)),
          in_list-without q p (hl.entries (w.table ns (uidhashfn bits uid))),
        ))),
  )

  abbrev lowered : World hl → Ptr → World hl
  lowered w p = record w {
    user = set_user p (record (w.user p) { count = (w.user p).count -ℤ pos 1 }) w.user;
  }

  free_uid-eq-lowered :
      (w : World hl) (p : Ptr) → pos 1 <ℤ (w.user p).count → free_uid bits (some p) w ≡ lowered w p
  unfolding free_uid ◌-ℤ◌
  free_uid-eq-lowered w p more = ground arith

  -- Dropping another reference only lowers the count: the tables stay sound, and the user is still
  -- found.
  pub free_uid_shared :
      (ns : Ptr) (uid : ℕ) (w : World hl) (p : Ptr)
      → IsTable bits w
      → Hashed bits w ns (uidhashfn bits uid) p
      → (w.user p).uid ≡ uid
      → pos 1 <ℤ (w.user p).count
      → let w' = free_uid bits (some p) w in
        IsTable bits w'
        × ((find_user bits ns uid w').0 ≡ some p)
        × ((w'.user p).count +ℤ pos 1 ≡ (w.user p).count)
  free_uid_shared ns uid w p t m e more =
      let t' : IsTable bits (lowered w p) = drop_ref-IsTable bits w p t more in
      rw (free_uid-eq-lowered w p more) (
        t',
        ap (λ r. r.0) (find_user_lem ns uid (lowered w p) p t' m (ground arith)),
        rw (==-refl p) (omega int_laws),
      )

  -- At boot the tables are sound, and hold the root user alone.
  pub uid_cache_init-IsTable :
      (init_ns root : Ptr) (w : World hl)
      → w.user root ≡ root_user init_ns
      → ((ns : Ptr) (b : ℕ) → hl.entries (w.table ns b) ≡ [])
      → let w' = uid_cache_init bits init_ns root w in
        IsTable bits w' × Hashed bits w' init_ns (uidhashfn bits 0) root
  unfolding uid_cache_init
  uid_cache_init-IsTable init_ns root w u none_yet = (
    insert-IsTable bits w0 root init_ns (uidhashfn bits 0) t0 (rw u) (rw u) (rw u (omega arith))
        (λ p m. absurd (ground (arith, nothing init_ns (uidhashfn bits 0)))),
    ground (arith, hl.entries-add_head root (w0.table init_ns (uidhashfn bits 0))),
  )
    where
      w0 : World hl
      w0 = record w {
        table = λ ns b. if ns == init_ns && ltb b (2 ^ bits) then hl.init_head else w.table ns b;
      }

      nothing : (ns : Ptr) (b : ℕ) → hl.entries (w0.table ns b) ≡ []
      nothing ns b = ground (arith, none_yet ns b, hl.entries-init_head)

      t0 : IsTable bits w0
      t0 = record {
        placed = λ ns b p m. absurd (ground (arith, nothing ns b));
        distinct = λ ns b p q m mq e. absurd (ground (arith, nothing ns b));
      }
