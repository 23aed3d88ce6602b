-- ===== src/EventStore/Scan.antt =====
-- Lemmas on the scans of the delivery list: what a scan that finds nothing, or something, says.
use billpiggy.Base.{
  ℕ, zero, suc, ◌+◌, ◌≤◌, ◌≡◌, refl, ◌↔◌, ◌⊎◌, inl, inr, Bool, true, false, List, [], ◌∷◌, some,
  arith, leb, get_elem?, Bool-cases,
}
use billpiggy.EventStore.{Delivery}
use billpiggy.EventStore.Queue.{any_at, candidates, insert_by_seq, sort_by_seq}

pub any_at-false :
    (p : ℕ → Delivery → Bool) (k : ℕ) (ds : List Delivery) (i j : ℕ) (d : Delivery)
    → any_at p k ds ≡ false
    → get_elem? ds j ≡ some d
    → i ≡ k + j
    → p i d ≡ false
unfolding any_at
any_at-false p k [] i j d h e q = cc
any_at-false p k (x ∷ ds) i zero d h e q = ground arith
any_at-false p k (x ∷ ds) i (suc j) d h e q =
    any_at-false p (suc k) ds i j d (ground arith) e (omega arith)

pub any_at-true :
    (p : ℕ → Delivery → Bool) (k : ℕ) (ds : List Delivery)
    → any_at p k ds ≡ true
    → (j : ℕ) × (d : Delivery) × (get_elem? ds j ≡ some d) × (p (k + j) d ≡ true)
unfolding any_at
any_at-true p k [] h = cc
any_at-true p k (x ∷ ds) h = elim (Bool-cases (p k x)) [
  | inl now ↦ (0, x, refl, ground arith)
  | inr later ↦
      let (j, d, e, t) = any_at-true p (suc k) ds (ground arith) in (suc j, d, e, ground arith)
]

-- The entry of position `i` is in the list.
abbrev pub Has : ℕ → Delivery → List (ℕ × Delivery) → Type 0
Has i d [] = ⊥
Has i d ((j, e) ∷ cs) = ((i ≡ j) × (d ≡ e)) ⊎ Has i d cs

pub candidates_complete :
    (test : Delivery → Bool) (k : ℕ) (ds : List Delivery) (i j : ℕ) (d : Delivery)
    → get_elem? ds j ≡ some d
    → test d ≡ true
    → i ≡ k + j
    → Has i d (candidates test k ds)
unfolding candidates
candidates_complete test k [] i j d e t q = cc
candidates_complete test k (x ∷ ds) i zero d e t q =
    let x≡d : x ≡ d = cc in rw (x≡d, t) (inl (omega arith, refl))
candidates_complete test k (x ∷ ds) i (suc j) d e t q =
    let rest = candidates_complete test (suc k) ds i j d e t (omega arith) in
    elim (Bool-cases (test x)) [ inl h ↦ rw h (inr rest) | inr h ↦ rw h rest ]

pub candidates_sound :
    (test : Delivery → Bool) (k : ℕ) (ds : List Delivery) (i : ℕ) (d : Delivery)
    → Has i d (candidates test k ds)
    → (j : ℕ) × (i ≡ k + j) × (get_elem? ds j ≡ some d) × (test d ≡ true)
unfolding candidates
candidates_sound test k [] i d h = absurd h
candidates_sound test k (x ∷ ds) i d h = elim (Bool-cases (test x)) [
  | inl t ↦
      let later : Has i d (candidates test (suc k) ds)
          → (j : ℕ) × (i ≡ k + j) × (get_elem? (x ∷ ds) j ≡ some d) × (test d ≡ true) =
        λ r.
          let (j, q, e, u) = candidates_sound test (suc k) ds i d r in (suc j, omega arith, e, u) in
      elim (let m : ((i ≡ k) × (d ≡ x)) ⊎ Has i d (candidates test (suc k) ds) = rw t at h in m) [
        | inl (q, e) ↦ (0, omega arith, rw e refl, rw e t)
        | inr r ↦ later r
      ]
  | inr t ↦
      let r : Has i d (candidates test (suc k) ds) = rw t at h in
      let (j, q, e, u) = candidates_sound test (suc k) ds i d r in (suc j, omega arith, e, u)
]

exchange : {A B C D : Type 0} → ((A ⊎ C) ↔ D) → (A ⊎ B ⊎ C) ↔ (B ⊎ D)
exchange e = (
  λ h. elim h [ inl a ↦ inr (e.0 (inl a)) | inr (inl b) ↦ inl b | inr (inr c) ↦ inr (e.0 (inr c)) ],
  λ h. elim h [
    | inl b ↦ inr (inl b)
    | inr d ↦ elim (e.1 d) [ inl a ↦ inl a | inr c ↦ inr (inr c) ]
  ],
)

under : {A B C : Type 0} → (B → C) → A ⊎ B → A ⊎ C
under f (inl a) = inl a
under f (inr b) = inr (f b)

pub Has-insert_by_seq :
    (i : ℕ) (d : Delivery) (x : ℕ × Delivery) (cs : List (ℕ × Delivery))
    → Has i d (x ∷ cs) ↔ Has i d (insert_by_seq x cs)
unfolding insert_by_seq
Has-insert_by_seq i d x [] = (λ h. h, λ h. h)
Has-insert_by_seq i d x (y ∷ ys) =
    elim (Bool-cases (leb x.1.event.global_seq y.1.event.global_seq)) [
      | inl t ↦ rw t (λ h. h, λ h. h)
      | inr t ↦ rw t (exchange (Has-insert_by_seq i d x ys))
    ]

pub Has-sort_by_seq :
    (i : ℕ) (d : Delivery) (cs : List (ℕ × Delivery)) → Has i d cs ↔ Has i d (sort_by_seq cs)
unfolding sort_by_seq
Has-sort_by_seq i d [] = (λ h. h, λ h. h)
Has-sort_by_seq i d (x ∷ xs) =
    let later = Has-sort_by_seq i d xs in
    let both = Has-insert_by_seq i d x (sort_by_seq xs) in
    (λ h. both.0 (under later.0 h), λ h. under later.1 (both.1 h))

-- The entry has the least number of those in the list.
abbrev pub IsLeast : ℕ → List (ℕ × Delivery) → Type 0
IsLeast n [] = Unit {0}
IsLeast n ((j, e) ∷ cs) = (n ≤ e.event.global_seq) × IsLeast n cs

abbrev pub Sorted : List (ℕ × Delivery) → Type 0
Sorted [] = Unit {0}
Sorted ((j, e) ∷ cs) = IsLeast e.event.global_seq cs × Sorted cs

IsLeast-mono : (m n : ℕ) (cs : List (ℕ × Delivery)) → m ≤ n → IsLeast n cs → IsLeast m cs
IsLeast-mono m n [] h l = tt
IsLeast-mono m n ((j, e) ∷ cs) h l = (omega arith, IsLeast-mono m n cs h l.1)

IsLeast-insert_by_seq :
    (n : ℕ) (x : ℕ × Delivery) (cs : List (ℕ × Delivery))
    → n ≤ x.1.event.global_seq
    → IsLeast n cs
    → IsLeast n (insert_by_seq x cs)
unfolding insert_by_seq
IsLeast-insert_by_seq n x [] h l = (h, tt)
IsLeast-insert_by_seq n x (y ∷ ys) h l = ground (arith, IsLeast-insert_by_seq n x ys h l.1)

Sorted-insert_by_seq :
    (x : ℕ × Delivery) (cs : List (ℕ × Delivery)) → Sorted cs → Sorted (insert_by_seq x cs)
unfolding insert_by_seq
Sorted-insert_by_seq x [] s = (tt, tt)
Sorted-insert_by_seq x (y ∷ ys) s = ground (
  arith,
  Sorted-insert_by_seq x ys s.1,
  IsLeast-insert_by_seq y.1.event.global_seq x ys,
  IsLeast-mono x.1.event.global_seq y.1.event.global_seq ys,
)

pub Sorted-sort_by_seq : (cs : List (ℕ × Delivery)) → Sorted (sort_by_seq cs)
unfolding sort_by_seq
Sorted-sort_by_seq [] = tt
Sorted-sort_by_seq (x ∷ xs) = Sorted-insert_by_seq x (sort_by_seq xs) (Sorted-sort_by_seq xs)

pub IsLeast-Has :
    (n i : ℕ) (d : Delivery) (cs : List (ℕ × Delivery))
    → IsLeast n cs
    → Has i d cs
    → n ≤ d.event.global_seq
IsLeast-Has n i d [] l h = absurd h
IsLeast-Has n i d ((j, e) ∷ cs) l (inl (p, q)) = rw q l.0
IsLeast-Has n i d ((j, e) ∷ cs) l (inr h) = IsLeast-Has n i d cs l.1 h
