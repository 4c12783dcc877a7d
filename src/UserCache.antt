-- ===== src/UserCache.antt =====
-- The user cache of hw5/kernel/user.c: reference-counted `user_struct`s in a hash table for each
-- user namespace. The kernel's hash lists (include/linux/list.h) are not in the repository: they are
-- the argument `Hlist`, with what their documentation promises as laws.
pub mod Table
pub mod Alloc
mod Tests
use osandroid_kernel.Prelude.{
  ℕ, zero, suc, ◌+◌, ◌/◌, ◌%◌, ◌^◌, ◌≡◌, Bool, true, false, ◌&&◌, not, Option, none, some, List, [],
  ◌∷◌, ltb, ◌==◌, if◌then◌else◌,
}
use osandroid_kernel.Prelude.Int.{ℤ, pos, negsuc, ◌+ℤ◌, ◌-ℤ◌, eqb_ℤ}

abbrev pub Ptr : Type 0
Ptr = ℕ

-- `struct user_struct`, with its conditional fields but the key rings left out. Counts do not wrap.
pub record User : Type 0 where
  pub count : ℤ  -- atomic_t __count
  pub processes : ℤ
  pub files : ℤ
  pub sigpending : ℤ
  pub locked_shm : ℕ
  pub uid_keyring : Ptr
  pub session_keyring : Ptr
  pub uid : ℕ
  pub user_ns : Ptr
  pub mem_max : ℤ
  pub cumulative_mem : ℤ

-- Calls of routines that are not in the repository and whose effect lies outside this state.
pub data Call : Type 0 where
  get_user_ns put_user_ns key_put kmem_cache_free : Ptr → Call

abbrev pub without : Ptr → List Ptr → List Ptr
without p [] = []
without p (q ∷ qs) = let rest = without p qs in if p == q then rest else q ∷ rest

-- A head of a hash list and the entries that an iteration over it visits.
pub record Hlist : Type 1 where
  pub Head : Type 0
  pub entries : Head → List Ptr
  pub init_head : Head
  pub add_head : Ptr → Head → Head
  pub del_init : Ptr → Head → Head
  pub entries-init_head : entries init_head ≡ []
  pub entries-add_head : (p : Ptr) (h : Head) → entries (add_head p h) ≡ p ∷ entries h
  pub entries-del_init : (p : Ptr) (h : Head) → entries (del_init p h) ≡ without p (entries h)

module _ (hl : Hlist) where
  -- The memory of all `user_struct`s, the tables of all namespaces, and the calls made, last first.
  pub record World : Type 0 where
    pub user : Ptr → User
    pub table : Ptr → ℕ → hl.Head
    pub log : List Call

abbrev pub set_user : Ptr → User → (Ptr → User) → Ptr → User
set_user p u f q = if p == q then u else f q

abbrev pub set_head : {A : Type 0} → Ptr → ℕ → A → (Ptr → ℕ → A) → Ptr → ℕ → A
set_head ns b h t ns' b' = if ns == ns' && b == b' then h else t ns' b'

-- `__uidhashfn` for `UIDHASH_BITS` bits, on an unsigned 32-bit uid.
unfoldable pub uidhashfn : ℕ → ℕ → ℕ
uidhashfn bits uid = (uid / 2 ^ bits + uid) % 2 ^ 32 % 2 ^ bits

-- The loop of `uid_hash_find`.
pub find_in : (Ptr → User) → ℕ → List Ptr → Option Ptr
find_in user uid [] = none
find_in user uid (p ∷ ps) =
    let rest = find_in user uid ps in if (user p).uid == uid then some p else rest

-- The user that `kmem_cache_zalloc` returns.
abbrev pub zeroed : User
zeroed = record {
  count = pos 0;
  processes = pos 0;
  files = pos 0;
  sigpending = pos 0;
  locked_shm = 0;
  uid_keyring = 0;
  session_keyring = 0;
  uid = 0;
  user_ns = 0;
  mem_max = pos 0;
  cumulative_mem = pos 0;
}

-- The static `root_user`, of namespace `init_ns`.
abbrev pub root_user : Ptr → User
root_user init_ns = record zeroed { count = pos 2; processes = pos 1; user_ns = init_ns }

-- What `alloc_uid` fills in.
abbrev pub new_user : Ptr → ℕ → User
new_user ns uid = record zeroed {
  count = pos 1;
  uid = uid;
  user_ns = ns;
  mem_max = negsuc 0;
  cumulative_mem = pos 0;
}

-- `atomic_inc(&user->__count)`
abbrev pub with_ref : {hl : Hlist} → Ptr → World hl → World hl
with_ref p w = record w {
  user = set_user p (record (w.user p) { count = (w.user p).count +ℤ pos 1 }) w.user;
}

module _ {hl : Hlist} (bits : ℕ) where
  pub uid_hash_insert : Ptr → Ptr → ℕ → World hl → World hl
  uid_hash_insert p ns b w = record w {
    table = set_head ns b (hl.add_head p (w.table ns b)) w.table;
  }

  pub uid_hash_remove : Ptr → World hl → World hl
  uid_hash_remove p w =
      let u = w.user p in
      let b = uidhashfn bits u.uid in
      record w {
        table = set_head u.user_ns b (hl.del_init p (w.table u.user_ns b)) w.table;
        log = put_user_ns u.user_ns ∷ w.log;
      }

  pub uid_hash_find : ℕ → hl.Head → World hl → Option Ptr × World hl
  uid_hash_find uid h w = elim (find_in w.user uid (hl.entries h)) [
    | none ↦ (none, w)
    | some p ↦ (some p, with_ref p w)
  ]

  pub free_user : Ptr → World hl → World hl
  free_user p w =
      let w' = uid_hash_remove p w in
      let u = w.user p in
      record w' {
        log = kmem_cache_free p ∷ key_put u.session_keyring ∷ key_put u.uid_keyring ∷ w'.log;
      }

  -- `find_user` in the namespace of the caller.
  pub find_user : Ptr → ℕ → World hl → Option Ptr × World hl
  find_user current_ns uid w = uid_hash_find uid (w.table current_ns (uidhashfn bits uid)) w

  -- `atomic_dec_and_lock` decrements, and is true if the count reaches 0.
  pub free_uid : Option Ptr → World hl → World hl
  free_uid none w = w
  free_uid (some p) w =
      let u = record (w.user p) { count = (w.user p).count -ℤ pos 1 } in
      let w' = record w { user = set_user p u w.user } in
      if eqb_ℤ u.count (pos 0) then free_user p w' else w'

  -- After the second look-up of `alloc_uid`: drop the new user `q`, or hash it.
  add_unless_found : (q ns : Ptr) (b : ℕ) → Option Ptr × World hl → Option Ptr × World hl
  add_unless_found q ns b (some p, w) = (
    some p,
    record w {
      log =
          kmem_cache_free q
          ∷ key_put (w.user q).session_keyring
          ∷ key_put (w.user q).uid_keyring
          ∷ put_user_ns ns
          ∷ w.log;
    },
  )
  add_unless_found q ns b (none, w) = (some q, uid_hash_insert q ns b w)

  -- The rest of `alloc_uid` once the allocator has returned `q`.
  alloc_new : (q ns : Ptr) (uid : ℕ) → World hl → Option Ptr × World hl
  unfolding add_unless_found
  alloc_new q ns uid w =
      let b = uidhashfn bits uid in
      let w1 = record w {
        user = set_user q (new_user ns uid) w.user;
        log = get_user_ns ns ∷ w.log;
      } in
      add_unless_found q ns b (uid_hash_find uid (w1.table ns b) w1)

  -- After the first look-up: allocate, while `others` happens.
  alloc_unless_found :
      (others : World hl → World hl) (new : Option Ptr) (ns : Ptr) (uid : ℕ)
      → Option Ptr × World hl
      → Option Ptr × World hl
  alloc_unless_found others new ns uid (some p, w) = (some p, w)
  alloc_unless_found others new ns uid (none, w) = elim new [
    | none ↦ (none, others w)
    | some q ↦ alloc_new q ns uid (others w)
  ]

  -- `alloc_uid`: `new` is what the allocator returns, and `others` what other processors do while
  -- the lock is free between the two look-ups.
  pub alloc_uid :
      (others : World hl → World hl) (new : Option Ptr) (ns : Ptr) (uid : ℕ)
      → World hl
      → Option Ptr × World hl
  unfolding alloc_unless_found
  alloc_uid others new ns uid w =
      alloc_unless_found others new ns uid (uid_hash_find uid (w.table ns (uidhashfn bits uid)) w)

  -- `uid_cache_init`: empty heads, and the root user at address `root`.
  pub uid_cache_init : (init_ns root : Ptr) → World hl → World hl
  unfolding uid_hash_insert
  uid_cache_init init_ns root w =
      let w' = record w {
        table = λ ns b. if ns == init_ns && ltb b (2 ^ bits) then hl.init_head else w.table ns b;
      } in
      uid_hash_insert root init_ns (uidhashfn bits 0) w'
