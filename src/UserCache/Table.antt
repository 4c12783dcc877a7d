-- ===== src/UserCache/Table.antt =====
-- Looking up a user in a bucket, and when the tables are well formed.
use osandroid_kernel.Prelude.{
  ℕ, ◌≡◌, ◌≢◌, refl, Bool, true, false, ◌||◌, none, some, List, [], ◌∷◌, arith, ◌==◌, if◌then◌else◌,
}
use osandroid_kernel.Prelude.Int.{pos, ◌+ℤ◌, ◌-ℤ◌, ◌<ℤ◌}
use osandroid_kernel.UserCache.{
  Ptr, User, Call, Hlist, World, without, set_user, with_ref, set_head, uidhashfn, find_in,
  uid_hash_insert,
}

abbrev pub in_list : Ptr → List Ptr → Bool
in_list p [] = false
in_list p (q ∷ qs) = (p == q) || in_list p qs

-- A found user is an entry with that uid; where none is found, no entry has it.
pub find_in-some :
    (user : Ptr → User) (uid : ℕ) (ps : List Ptr) {p : Ptr}
    → find_in user uid ps ≡ some p
    → (in_list p ps ≡ true) × ((user p).uid ≡ uid)
unfolding find_in
find_in-some user uid [] h = absurd (cc)
find_in-some user uid (q ∷ qs) {p} h = ground (arith, find_in-some user uid qs {p = p})

pub find_in-none :
    (user : Ptr → User) (uid : ℕ) (ps : List Ptr) (p : Ptr)
    → find_in user uid ps ≡ none
    → in_list p ps ≡ true
    → (user p).uid ≢ uid
unfolding find_in
find_in-none user uid [] p h m = absurd (cc)
find_in-none user uid (q ∷ qs) p h m = ground (arith, find_in-none user uid qs p)

pub find_in-eq-none :
    (user : Ptr → User) (uid : ℕ) (ps : List Ptr)
    → ((p : Ptr) → in_list p ps ≡ true → (user p).uid ≢ uid)
    → find_in user uid ps ≡ none
unfolding find_in
find_in-eq-none user uid [] h = refl
find_in-eq-none user uid (q ∷ qs) h =
    let rest : _ = find_in-eq-none user uid qs (λ p m. h p (ground arith)) in ground (arith, h q)

-- An entry with the uid is found if it is the only one with it.
pub find_in_unique :
    (user : Ptr → User) (uid : ℕ) (ps : List Ptr) (p : Ptr)
    → in_list p ps ≡ true
    → (user p).uid ≡ uid
    → ((q : Ptr) → in_list q ps ≡ true → (user q).uid ≡ uid → q ≡ p)
    → find_in user uid ps ≡ some p
unfolding find_in
find_in_unique user uid [] p m e only = absurd (cc)
find_in_unique user uid (q ∷ qs) p m e only = ground (arith, only q, find_in_unique user uid qs p)

pub in_list-without :
    (p q : Ptr) (ps : List Ptr)
    → in_list p (without q ps) ≡ (if p == q then false else in_list p ps)
in_list-without p q [] = ground arith
in_list-without p q (r ∷ rs) = ground (arith, in_list-without p q rs)

module _ {hl : Hlist} (bits : ℕ) where
  abbrev pub Hashed : World hl → Ptr → ℕ → Ptr → Type 0
  Hashed w ns b p = in_list p (hl.entries (w.table ns b)) ≡ true

  -- Every entry is referenced and stands in the bucket of its namespace and uid, and a bucket has
  -- one entry for a uid.
  pub record IsTable (w : World hl) : Type 0 where
    pub placed :
        (ns : Ptr) (b : ℕ) (p : Ptr)
        → Hashed w ns b p
        → ((w.user p).user_ns ≡ ns)
          × (uidhashfn bits (w.user p).uid ≡ b)
          × (pos 0 <ℤ (w.user p).count)
    pub distinct :
        (ns : Ptr) (b : ℕ) (p q : Ptr)
        → Hashed w ns b p
        → Hashed w ns b q
        → (w.user p).uid ≡ (w.user q).uid
        → p ≡ q

  -- `q` is an entry of no bucket.
  abbrev pub IsUnhashed : World hl → Ptr → Type 0
  IsUnhashed w q = (ns : Ptr) (b : ℕ) → in_list q (hl.entries (w.table ns b)) ≡ false

  -- One more reference keeps the table well formed.
  pub take_ref-IsTable :
      (w : World hl) (p : Ptr) (log : List Call)
      → IsTable w
      → IsTable (record (with_ref p w) { log = log })
  unfolding ◌+ℤ◌
  take_ref-IsTable w p log t = record {
    placed = λ ns b q m. ground (arith, t.placed ns b q);
    distinct = λ ns b q r mq mr e. t.distinct ns b q r mq mr (ground arith);
  }

  -- One reference less keeps it so while another is left.
  pub drop_ref-IsTable :
      (w : World hl) (p : Ptr)
      → IsTable w
      → pos 1 <ℤ (w.user p).count
      → IsTable (record w {
        user = set_user p (record (w.user p) { count = (w.user p).count -ℤ pos 1 }) w.user;
      })
  unfolding ◌-ℤ◌
  drop_ref-IsTable w p t more = record {
    placed = λ ns b q m. ground (arith, t.placed ns b q);
    distinct = λ ns b q r mq mr e. t.distinct ns b q r mq mr (ground arith);
  }

  -- Filling in a user that is no entry changes nothing.
  pub fill-IsTable :
      (w : World hl) (q : Ptr) (u : User) (log : List Call)
      → IsTable w
      → IsUnhashed w q
      → IsTable (record w { user = set_user q u w.user; log = log })
  fill-IsTable w q u log t out = record {
    placed = λ ns b p m. ground (arith, t.placed ns b p, out ns b);
    distinct = λ ns b p r mp mr e. t.distinct ns b p r mp mr (ground (arith, out ns b));
  }

  -- A new entry keeps the table well formed if it stands in its bucket and no entry has its uid.
  pub insert-IsTable :
      (w : World hl) (q ns : Ptr) (b : ℕ)
      → IsTable w
      → (w.user q).user_ns ≡ ns
      → uidhashfn bits (w.user q).uid ≡ b
      → pos 0 <ℤ (w.user q).count
      → ((p : Ptr) → Hashed w ns b p → (w.user p).uid ≢ (w.user q).uid)
      → IsTable (uid_hash_insert bits q ns b w)
  unfolding uid_hash_insert
  insert-IsTable w q ns b t e h c new = record {
    placed = λ ns' b' p m. ground (arith, t.placed ns' b' p, hl.entries-add_head q (w.table ns b));
    distinct = λ ns' b' p r mp mr e.
        ground (arith, t.distinct ns' b' p r, new p, new r, hl.entries-add_head q (w.table ns b));
  }

  -- Dropping the last reference of an entry and taking it out keeps the table well formed.
  pub remove-IsTable :
      (w : World hl) (p : Ptr) (log : List Call)
      → IsTable w
      → let u = w.user p in
        let b = uidhashfn bits u.uid in
        IsTable (record w {
          user = set_user p (record u { count = pos 0 }) w.user;
          table = set_head u.user_ns b (hl.del_init p (w.table u.user_ns b)) w.table;
          log = log;
        })
  remove-IsTable w p log t = record {
    placed = λ ns b q m. ground (arith, t.placed ns b q, gone, in_list-without q p (bucket));
    distinct = λ ns b q r mq mr e.
        t.distinct ns b q r (ground (arith, gone, in_list-without q p bucket))
          (ground (arith, gone, in_list-without r p bucket)) (ground arith);
  }
    where
      bucket : List Ptr
      bucket = hl.entries (w.table (w.user p).user_ns (uidhashfn bits (w.user p).uid))

      gone :
          hl.entries (hl.del_init p (w.table (w.user p).user_ns (uidhashfn bits (w.user p).uid)))
          ≡ without p bucket
      gone = hl.entries-del_init p (w.table (w.user p).user_ns (uidhashfn bits (w.user p).uid))
