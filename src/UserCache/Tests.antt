-- ===== src/UserCache/Tests.antt =====
-- Runs of the user cache over lists, and its theorems at concrete inputs.
use osandroid_kernel.Prelude.{refl, some, List, [], ◌∷◌, arith}
use osandroid_kernel.UserCache.{
  Ptr, Hlist, World, without, root_user, uidhashfn, free_uid, uid_hash_insert, alloc_uid,
  uid_cache_init,
}
use osandroid_kernel.UserCache.Table.{IsTable, Hashed, IsUnhashed}
use osandroid_kernel.UserCache.Alloc.{Gets, alloc_uid-Gets, free_uid_shared, uid_cache_init-IsTable}

-- Hash lists that are lists.
abbrev lists : Hlist
lists = record {
  Head = List Ptr;
  entries = λ h. h;
  init_head = [];
  add_head = λ p h. p ∷ h;
  del_init = without;
  entries-init_head = refl;
  entries-add_head = λ p h. refl;
  entries-del_init = λ p h. refl;
}

-- The root user lies at 10, and the namespace is 1; the hash has 7 bits.
abbrev boot : World lists
boot = record { user = λ _. root_user 1; table = λ _ _. []; log = [] }

abbrev ready : World lists
ready = uid_cache_init {hl = lists} 7 1 10 boot

ready-IsTable : IsTable {hl = lists} 7 ready × Hashed {hl = lists} 7 ready 1 (uidhashfn 7 0) 10
ready-IsTable = uid_cache_init-IsTable {hl = lists} 7 1 10 boot refl (λ ns b. refl)

ready-IsUnhashed : IsUnhashed {hl = lists} 7 ready 20
unfolding uid_cache_init uid_hash_insert
ready-IsUnhashed ns b = ground arith

alloc_uid-Gets_example :
    Gets {hl = lists} 7 1 1000 (alloc_uid {hl = lists} 7 (λ w. w) (some 20) 1 1000 ready)
alloc_uid-Gets_example =
    alloc_uid-Gets {hl = lists} 7 (λ w. w) 20 1 1000 ready ready-IsTable.0 ready-IsTable.0
      ready-IsUnhashed

abbrev dropped : World lists
dropped = free_uid {hl = lists} 7 (some 10) ready

dropped-IsTable : IsTable {hl = lists} 7 dropped
unfolding uid_cache_init
dropped-IsTable =
    let shared =
      free_uid_shared {hl = lists} 7 1 0 ready 10 ready-IsTable.0 ready-IsTable.1 refl
        (omega arith) in
    shared.0
