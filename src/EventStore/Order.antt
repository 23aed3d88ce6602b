-- ===== src/EventStore/Order.antt =====
-- Which delivery `claim` hands out (internal/adapter/outbound/memory/event_store.go).
use billpiggy.Base.{
  ℕ, ◌+◌, ◌<◌, ◌≤◌, ◌≡◌, refl, ◌⊎◌, inl, inr, not, ◌&&◌, true, false, String, List, [], ◌∷◌, none,
  some, arith, get_elem?, Bool-cases, string_eq, nat_eq, contains_iff, In, string_beq_iff,
}
use billpiggy.Base.Int.{ℤ, pos, ◌-ℤ◌, ltb_ℤ, -ℤ_parts}
use billpiggy.Clock.{Time, is_zero}
use billpiggy.EventStore.{Delivery, pending, done}
use billpiggy.EventStore.Queue.{
  blocked, blocks, same_stream, deliverable, first_unblocked, next_delivery, matches_aggregate_type,
}
use billpiggy.EventStore.Scan.{
  any_at-false, Has, candidates_complete, candidates_sound, Has-sort_by_seq, Sorted,
  Sorted-sort_by_seq, IsLeast-Has,
}

first_unblocked_sound :
    (ds : List Delivery) (cs : List (ℕ × Delivery)) (i : ℕ) (d : Delivery)
    → first_unblocked ds cs ≡ some (i, d)
    → Has i d cs × (blocked ds i d ≡ false)
unfolding first_unblocked
first_unblocked_sound ds [] i d h = cc
first_unblocked_sound ds ((j, e) ∷ cs) i d h = elim (Bool-cases (blocked ds j e)) [
  | inl b ↦ let (has, free) = first_unblocked_sound ds cs i d (ground arith) in (inr has, free)
  | inr b ↦ ground arith
]

first_unblocked_least :
    (ds : List Delivery) (cs : List (ℕ × Delivery)) (i j : ℕ) (d e : Delivery)
    → Sorted cs
    → first_unblocked ds cs ≡ some (i, d)
    → Has j e cs
    → blocked ds j e ≡ false
    → d.event.global_seq ≤ e.event.global_seq
unfolding first_unblocked
first_unblocked_least ds [] i j d e s h has free = absurd has
first_unblocked_least ds ((k, x) ∷ cs) i j d e s h (inl (p, q)) free = ground arith
first_unblocked_least ds ((k, x) ∷ cs) i j d e s h (inr has) free =
    ground (
      arith,
      first_unblocked_least ds cs i j d e s.1,
      IsLeast-Has x.event.global_seq j e cs s.0 has,
    )

first_unblocked-none :
    (ds : List Delivery) (cs : List (ℕ × Delivery)) (j : ℕ) (e : Delivery)
    → first_unblocked ds cs ≡ none
    → Has j e cs
    → blocked ds j e ≡ true
unfolding first_unblocked
first_unblocked-none ds [] j e h has = absurd has
first_unblocked-none ds ((k, x) ∷ cs) j e h (inl (p, q)) = ground arith
first_unblocked-none ds ((k, x) ∷ cs) j e h (inr has) =
    first_unblocked-none ds cs j e (ground arith) has

module _ (subscription : String) (types : List String) (lease : ℤ) (now : Time)
    (ds : List Delivery) where
  pub next_sound :
      (i : ℕ) (d : Delivery)
      → next_delivery subscription types lease now ds ≡ some (i, d)
      → (get_elem? ds i ≡ some d)
        × (deliverable subscription types lease now d ≡ true)
        × (blocked ds i d ≡ false)
  unfolding next_delivery
  next_sound i d h =
      let (has, free) = first_unblocked_sound ds _ i d h in
      let (j, q, e, t) = candidates_sound _ 0 ds i d ((Has-sort_by_seq i d _).1 has) in
      let ij : i ≡ j = omega arith in (rw ij e, t, free)

  pub next_least :
      (i j : ℕ) (d e : Delivery)
      → next_delivery subscription types lease now ds ≡ some (i, d)
      → get_elem? ds j ≡ some e
      → deliverable subscription types lease now e ≡ true
      → blocked ds j e ≡ false
      → d.event.global_seq ≤ e.event.global_seq
  unfolding next_delivery
  next_least i j d e h at_j t free =
      first_unblocked_least ds _ i j d e (Sorted-sort_by_seq _) h
        ((Has-sort_by_seq j e _).0 (candidates_complete _ 0 ds j j e at_j t (omega arith))) free

  pub next_none :
      (j : ℕ) (e : Delivery)
      → next_delivery subscription types lease now ds ≡ none
      → get_elem? ds j ≡ some e
      → deliverable subscription types lease now e ≡ true
      → blocked ds j e ≡ true
  unfolding next_delivery
  next_none j e h at_j t =
      first_unblocked-none ds _ j e h
        ((Has-sort_by_seq j e _).0 (candidates_complete _ 0 ds j j e at_j t (omega arith)))

-- Two deliveries of one subscription for events of one aggregate.
abbrev pub SameStream : Delivery → Delivery → Type 0
SameStream other d =
    (other.subscription ≡ d.subscription)
    × (other.event.event.aggregate_type ≡ d.event.event.aggregate_type)
    × (other.event.event.aggregate_id ≡ d.event.event.aggregate_id)

pub SameStream-same_stream : (x d : Delivery) → SameStream x d → same_stream x d ≡ true
SameStream-same_stream x d s = ground (
  arith,
  string_beq_iff x.subscription d.subscription,
  string_beq_iff x.event.event.aggregate_type d.event.event.aggregate_type,
  string_beq_iff x.event.event.aggregate_id d.event.event.aggregate_id,
)

pub same_stream-SameStream : (x d : Delivery) → same_stream x d ≡ true → SameStream x d
same_stream-SameStream x d s = ground (
  arith,
  string_beq_iff x.subscription d.subscription,
  string_beq_iff x.event.event.aggregate_type d.event.event.aggregate_type,
  string_beq_iff x.event.event.aggregate_id d.event.event.aggregate_id,
)

-- What is not blocked has only processed deliveries before it in its stream.
pub unblocked_past :
    (ds : List Delivery) (i j : ℕ) (d e : Delivery)
    → blocked ds i d ≡ false
    → get_elem? ds i ≡ some d
    → get_elem? ds j ≡ some e
    → SameStream e d
    → e.event.global_seq < d.event.global_seq
    → e.status ≡ done
unfolding blocked
unblocked_past ds i j d e free at_i at_j same lt = ground (
  arith,
  any_at-false (blocks i d) 0 ds j j e free at_j (omega arith),
  SameStream-same_stream e d same,
)

-- The delivery waits for `subscription`, is not put off, is free of any lock younger than the
-- lease, and is of one of the wanted types (of any type, if none is named).
pub record IsReady (subscription : String) (types : List String) (lease : ℕ) (now : Time)
    (d : Delivery) : Type 0 where
  pub wanted : d.subscription ≡ subscription
  pub waiting : d.status ≡ pending
  pub due : d.available_at ≤ now
  pub unlocked : (d.locked_at ≡ 0) ⊎ (d.locked_at + lease ≤ now)
  pub kind : (types ≡ []) ⊎ In d.event.event.aggregate_type types

pub deliverable_status :
    (subscription : String) (types : List String) (lease : ℤ) (now : Time) (d : Delivery)
    → deliverable subscription types lease now d ≡ true
    → (d.subscription ≡ subscription) × (d.status ≡ pending)
unfolding deliverable
deliverable_status subscription types lease now d t =
    (ground (arith, string_beq_iff d.subscription subscription), ground arith)

matches_of_kind :
    (t : String) (types : List String)
    → (types ≡ []) ⊎ In t types
    → matches_aggregate_type t types ≡ true
unfolding matches_aggregate_type
matches_of_kind t [] h = refl
matches_of_kind t (x ∷ xs) h = (contains_iff t (x ∷ xs)).1 (elim h [ inl e ↦ cc | inr i ↦ i ])

pub IsReady-deliverable :
    (subscription : String) (types : List String) (lease : ℕ) (now : Time) (d : Delivery)
    → IsReady subscription types lease now d
    → deliverable subscription types (pos lease) now d ≡ true
unfolding deliverable
IsReady-deliverable subscription types lease now d r = ground (
  arith,
  string_beq_iff d.subscription subscription,
  matches_of_kind d.event.event.aggregate_type types r.kind,
  -ℤ_parts (pos now) (pos lease),
)

kind_of_matches :
    (t : String) (types : List String)
    → matches_aggregate_type t types ≡ true
    → (types ≡ []) ⊎ In t types
unfolding matches_aggregate_type
kind_of_matches t [] h = inl refl
kind_of_matches t (x ∷ xs) h = inr ((contains_iff t (x ∷ xs)).0 h)

lock_over :
    (locked now lease : ℕ)
    → (not (is_zero locked) && ltb_ℤ (pos now -ℤ pos lease) (pos locked)) ≡ false
    → (locked ≡ 0) ⊎ (locked + lease ≤ now)
lock_over locked now lease h = elim (Bool-cases (is_zero locked)) [
  | inl z ↦ inl (ground arith)
  | inr z ↦ inr (ground (arith, -ℤ_parts (pos now) (pos lease)))
]

pub deliverable-IsReady :
    (subscription : String) (types : List String) (lease : ℕ) (now : Time) (d : Delivery)
    → deliverable subscription types (pos lease) now d ≡ true
    → IsReady subscription types lease now d
unfolding deliverable
deliverable-IsReady subscription types lease now d h = record {
  wanted = ground (arith, string_beq_iff d.subscription subscription);
  waiting = ground arith;
  due = ground arith;
  unlocked = lock_over d.locked_at now lease (ground arith);
  kind = kind_of_matches d.event.event.aggregate_type types (ground arith);
}
