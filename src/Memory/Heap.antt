-- ===== src/Memory/Heap.antt =====
-- The objects that are allocated, for the code that frees them. An object is a number, and `live` counts
-- how often it is allocated.
use jpipe.Common.{
  ℕ, suc, ◌+◌, ◌-◌, ◌≡◌, refl, ◌∙◌, false, List, [], ◌∷◌, ◌++◌, Option, none, some, arith, ◌==◌,
  if◌then◌else◌,
}

pub record Heap : Type 0 where
  pub next : ℕ
  pub live : ℕ → ℕ

-- What a run comes to: `fault` where it frees an object that is not allocated.
pub data Run (A : Type 0) : Type 0 where
  fault : Run A
  done : (result : A) (heap : Heap) → Run A

-- Code that allocates and frees.
abbrev pub Mem : Type 0 → Type 0
Mem A = Heap → Run A

-- Nothing is run behind a fault.
abbrev pub continue : {A B : Type 0} → (A → Heap → Run B) → Run A → Run B
continue next fault = fault
continue next (done result heap) = next result heap

abbrev pub pure : {A : Type 0} → A → Mem A
pure result = done result

infixl 5 ◌>>=◌
abbrev pub ◌>>=◌ : {A B : Type 0} → Mem A → (A → Mem B) → Mem B
(run >>= next) heap = continue next (run heap)

infixl 5 ◌>>◌
abbrev pub ◌>>◌ : {B : Type 0} → Mem (Unit {0}) → Mem B → Mem B
first >> second = first >>= (λ (_ : Unit {0}). second)

-- `jp_mem_malloc`, `jp_mem_calloc` and `jp_mem_strdup`.
unfoldable pub alloc : Mem ℕ
alloc h =
    done h.next
      (record { next = suc h.next; live = λ p. h.live p + (if p == h.next then 1 else 0) })

-- `free`.
unfoldable pub free : ℕ → Mem (Unit {0})
free p h =
    if h.live p == 0
    then fault
    else done tt (record h { live = λ q. h.live q - (if q == p then 1 else 0) })

-- `JP_FREE`.
abbrev pub mem_free : Option ℕ → Mem (Unit {0})
mem_free none = pure tt
mem_free (some p) = free p

unfoldable pub free_all : List ℕ → Mem (Unit {0})
free_all [] = pure tt
free_all (p ∷ ps) = free p >> free_all ps

abbrev pub count : ℕ → List ℕ → ℕ
count p [] = 0
count p (q ∷ qs) = (if p == q then 1 else 0) + count p qs

pub count-append : (p : ℕ) (xs ys : List ℕ) → count p (xs ++ ys) ≡ count p xs + count p ys
count-append p [] ys = omega arith
count-append p (x ∷ xs) ys = omega (arith, count-append p xs ys)

-- The allocated objects are those of a list.
abbrev pub Owns : List ℕ → Heap → Type 0
Owns ps h = (p : ℕ) → h.live p ≡ count p ps

-- A run that ends without a fault, with a result that is as it should be.
abbrev pub Ends : {A : Type 0} → (A → Heap → Type 0) → Run A → Type 0
Ends P fault = ⊥
Ends P (done result heap) = P result heap

continue-Ends :
    {A B : Type 0} (P : A → Heap → Type 0) (Q : B → Heap → Type 0) (next : A → Heap → Run B)
    (r : Run A)
    → Ends P r
    → ((result : A) (h : Heap) → P result h → Ends Q (next result h))
    → Ends Q (continue next r)
continue-Ends P Q next fault ends then_ends = ends
continue-Ends P Q next (done result h) ends then_ends = then_ends result h ends

-- Runs behind one another.
pub >>=-Ends :
    {A B : Type 0} (P : A → Heap → Type 0) (Q : B → Heap → Type 0) (run : Mem A) (next : A → Mem B)
    (h : Heap)
    → Ends P (run h)
    → ((result : A) (h' : Heap) → P result h' → Ends Q (next result h'))
    → Ends Q ((run >>= next) h)
>>=-Ends P Q run next h ends then_ends = continue-Ends P Q next (run h) ends then_ends

pub alloc-Owns : (ps : List ℕ) (h : Heap) → Owns ps h → Ends (λ p h'. Owns (p ∷ ps) h') (alloc h)
unfolding alloc
alloc-Owns ps h o = λ p. omega (arith, o p)

pub free-Owns :
    (p : ℕ) (ps qs : List ℕ) (h : Heap)
    → Owns qs h
    → ((q : ℕ) → count q qs ≡ count q (p ∷ ps))
    → Ends (λ _ h'. Owns ps h') (free p h)
unfolding free
free-Owns p ps qs h o same =
    let there : (h.live p == 0) ≡ false = ground (arith, o p, same p) in
    rw there (λ q. ground (arith, o q, same q))

-- The object of a pointer that may be NULL.
abbrev pub held : Option ℕ → List ℕ
held none = []
held (some p) = p ∷ []

pub mem_free-Owns :
    (o : Option ℕ) (ps qs : List ℕ) (h : Heap)
    → Owns qs h
    → ((q : ℕ) → count q qs ≡ count q (held o ++ ps))
    → Ends (λ _ h'. Owns ps h') (mem_free o h)
mem_free-Owns none ps qs h o same = λ q. o q ∙ same q
mem_free-Owns (some p) ps qs h o same = free-Owns p ps qs h o same

pub free_all-Owns :
    (xs ps qs : List ℕ) (h : Heap)
    → Owns qs h
    → ((q : ℕ) → count q qs ≡ count q (xs ++ ps))
    → Ends (λ _ h'. Owns ps h') (free_all xs h)
unfolding free_all
free_all-Owns [] ps qs h o same = λ q. o q ∙ same q
free_all-Owns (x ∷ xs) ps qs h o same =
    >>=-Ends (λ _ h'. Owns (xs ++ ps) h') (λ _ h'. Owns ps h') (free x) (λ _. free_all xs) h
      (free-Owns x (xs ++ ps) qs h o same)
      (λ _ h' o'. free_all-Owns xs ps (xs ++ ps) h' o' (λ q. refl))
