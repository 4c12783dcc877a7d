-- ===== src/Sem/Queue.antt =====
-- The waiting queue in the heap: which nodes a semaphore reaches, and how a write at the tail
-- extends them.
use osandroid_kernel.Prelude.{
  ℕ, ◌≡◌, ◌≢◌, refl, Bool, true, false, ◌||◌, List, [], ◌∷◌, ◌++◌, some, arith, ◌==◌, ap, ◌∙◌,
}
use osandroid_kernel.Prelude.Lists.{length}
use osandroid_kernel.Sem.{Ptr, null, node, Heap, Sem}

-- The addresses and threads of the queue, in order.
abbrev pub Nodes : Type 0
Nodes = List (Ptr × ℕ)

abbrev pub has : Ptr → Nodes → Bool
has a [] = false
has a ((p, _) ∷ xs) = (a == p) || has a xs

abbrev pub first : Nodes → Ptr
first [] = null
first ((p, _) ∷ _) = p

abbrev pub last : Ptr × ℕ → Nodes → Ptr × ℕ
last x [] = x
last x (y ∷ ys) = last y ys

-- Each node holds its thread and the address of the next; the last one holds NULL.
abbrev pub Linked : Heap → Nodes → Type 0
Linked h [] = Unit
Linked h ((p, d) ∷ xs) =
    (p ≢ null) × (has p xs ≡ false) × (h p ≡ some (node d (first xs))) × Linked h xs

-- What `head` points to: nothing is said of it while the queue is empty.
abbrev pub EndsAt : Ptr → Nodes → Type 0
EndsAt p [] = Unit
EndsAt p (x ∷ xs) = p ≡ (last x xs).0

pub record IsQueue (h : Heap) (s : Sem) (xs : Nodes) : Type 0 where
  pub linked : Linked h xs
  pub starts : s.start ≡ first xs
  pub ends : EndsAt s.head xs
  pub counted : s.sthread_count ≡ length xs

pub Linked-frame :
    (g h : Heap) (xs : Nodes)
    → Linked h xs
    → ((a : Ptr) → has a xs ≡ true → g a ≡ h a)
    → Linked g xs
Linked-frame g h [] l same = tt
Linked-frame g h ((p, d) ∷ xs) l same =
    (l.0, l.1, ground (arith, same p), Linked-frame g h xs l.3 (λ a m. same a (ground arith)))

-- `g` is `h` with a new last node `f`.
abbrev pub Extends : Heap → Heap → Ptr × ℕ → Ptr → ℕ → Type 0
Extends g h (l, dl) f d =
    (g l ≡ some (node dl f)) × (g f ≡ some (node d null)) × ((a : Ptr) → a ≢ l → a ≢ f → g a ≡ h a)

pub Linked-last :
    (h : Heap) (x : Ptr × ℕ) (xs : Nodes)
    → Linked h (x ∷ xs)
    → ((last x xs).0 ≢ null) × (h (last x xs).0 ≡ some (node (last x xs).1 null))
Linked-last h (p, d) [] l = (l.0, l.2)
Linked-last h (p, d) (y ∷ ys) l = Linked-last h y ys l.3

pub has-last : (x : Ptr × ℕ) (xs : Nodes) → has (last x xs).0 (x ∷ xs) ≡ true
has-last (p, d) [] = ground arith
has-last (p, d) (y ∷ ys) = ground (arith, has-last y ys)

pub has-append : (a : Ptr) (xs ys : Nodes) → has a (xs ++ ys) ≡ (has a xs || has a ys)
has-append a [] ys = refl
has-append a ((p, d) ∷ xs) ys = ground (arith, has-append a xs ys)

pub Linked-snoc :
    (g h : Heap) (x : Ptr × ℕ) (xs : Nodes) (f : Ptr) (d : ℕ)
    → Linked h (x ∷ xs)
    → f ≢ null
    → has f (x ∷ xs) ≡ false
    → Extends g h (last x xs) f d
    → Linked g ((x ∷ xs) ++ (f, d) ∷ [])
Linked-snoc g h (p, dp) [] f d l nf out e = (l.0, ground arith, e.0, (nf, refl, e.1, tt))
Linked-snoc g h (p, dp) (y ∷ ys) f d l nf out e = (
  l.0,
  ground (arith, has-append p (y ∷ ys) ((f, d) ∷ [])),
  e.2 p not-last (ground arith) ∙ l.2,
  Linked-snoc g h y ys f d l.3 nf (ground arith) e,
)
  where
    not-last : p ≢ (last y ys).0
    not-last q = ground (arith, has-last y ys, ap (λ a. has a (y ∷ ys)) q)
