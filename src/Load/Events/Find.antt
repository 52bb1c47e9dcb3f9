-- ===== src/Load/Events/Find.antt =====
-- The search for an anchor in `cyaml__handle_alias` of src/load.c: the last complete anchor with the
-- name of an alias.
use libcyaml.Base.{ℕ, zero, suc, ◌≤◌, ◌<◌, ◌≡◌, ◌≢◌, refl, arith, ◌⊎◌, inl, inr}
use libcyaml.Base.{true, false, Option, none, some, List, [], ◌∷◌, length}
use libcyaml.Base.{get_elem?, get_elem?-in_range, ◌==◌, ==→eq, ==-refl, lt_suc_cases, Bool-cases}
use libcyaml.Schema.{Bytes}
use libcyaml.Errors.{invalid_alias}
use libcyaml.Outcome.{Outcome, done, failed}
use libcyaml.Load.Events.{Event, Anchor, Ctx, same_name, find_anchor, handle_alias}

pub same_name→eq : (a b : Bytes) → same_name a b ≡ true → a ≡ b
unfolding same_name
same_name→eq [] [] h = refl
same_name→eq [] (y ∷ ys) h = cc
same_name→eq (x ∷ xs) [] h = cc
same_name→eq (x ∷ xs) (y ∷ ys) h = go (Bool-cases (x == y)) (same_name→eq xs ys)
  where
    go :
        ((x == y) ≡ true) ⊎ ((x == y) ≡ false)
        → (same_name xs ys ≡ true → xs ≡ ys)
        → (x ∷ xs) ≡ (y ∷ ys)
    go (inl e) rest = cc (==→eq x y e, rest (rw e at h))
    go (inr e) rest = cc

pub same_name_refl : (a : Bytes) → same_name a a ≡ true
unfolding same_name
same_name_refl [] = refl
same_name_refl (x ∷ xs) = rw (==-refl x, same_name_refl xs) refl

-- `i` is the last index below `n` whose anchor has the name.
abbrev pub IsLast : List Anchor → Bytes → ℕ → ℕ → Type 0
IsLast xs name n i =
    (i < n)
    × ((a : Anchor) × (get_elem? xs i ≡ some a) × (a.name ≡ name))
    × ((j : ℕ) (b : Anchor) → i < j → j < n → get_elem? xs j ≡ some b → b.name ≢ name)

abbrev pub IsAbsent : List Anchor → Bytes → ℕ → Type 0
IsAbsent xs name n = (j : ℕ) (b : Anchor) → j < n → get_elem? xs j ≡ some b → b.name ≢ name

-- What the search returns for the first `n` anchors.
abbrev pub Found : List Anchor → Bytes → ℕ → Option ℕ → Type 0
Found xs name n (some i) = IsLast xs name n i
Found xs name n none = IsAbsent xs name n

pub find_anchor_lem :
    (xs : List Anchor) (name : Bytes) (n : ℕ)
    → n ≤ length xs
    → Found xs name n (find_anchor xs name n)
unfolding find_anchor
find_anchor_lem xs name zero h = λ j b lt at. absurd (omega arith)
find_anchor_lem xs name (suc i) h =
    let (a, at) = get_elem?-in_range xs i (omega arith) in
    step a at (Bool-cases (same_name a.name name)) (find_anchor_lem xs name i (omega arith))
  where
    absent :
        (a : Anchor)
        → get_elem? xs i ≡ some a
        → same_name a.name name ≡ false
        → (b : Anchor) → get_elem? xs i ≡ some b
        → b.name ≢ name
    absent a at e b at' n = cc (same_name_refl name)

    below :
        (a : Anchor)
        → get_elem? xs i ≡ some a
        → same_name a.name name ≡ false
        → (o : Option ℕ) → Found xs name i o
        → Found xs name (suc i) o
    below a at e none k = λ j b lt at'. elim (lt_suc_cases j i lt) [
      | inl l ↦ k j b l at'
      | inr l ↦ absent a at e b (rw l at at')
    ]
    below a at e (some m) (lt, here, k) = (
      omega arith,
      here,
      λ j b l l' at'. elim (lt_suc_cases j i l') [
        | inl q ↦ k j b l q at'
        | inr q ↦ absent a at e b (rw q at at')
      ],
    )

    step :
        (a : Anchor)
        → get_elem? xs i ≡ some a
        → (same_name a.name name ≡ true) ⊎ (same_name a.name name ≡ false)
        → Found xs name i (find_anchor xs name i)
        → Found xs name (suc i) (find_anchor xs name (suc i))
    step a at (inl e) k =
        rw (at, find_anchor, e)
          (omega arith, (a, at, same_name→eq a.name name e), λ j b lt lt' at'. absurd (omega arith))
    step a at (inr e) k = rw (at, find_anchor, e) (below a at e (find_anchor xs name i) k)

-- What an alias does to the context: it starts the replay of the last complete anchor with its name,
-- or it is refused, with the context unchanged, and there is none.
pub data Resolves {P H : Type 0} (event : Event) (c : Ctx P H)
    : Outcome (Ctx P H) (Unit {0}) → Type 0 where
  replays :
      (i : ℕ) (a : Anchor)
      → IsLast c.recording.complete event.alias_of (length c.recording.complete) i
      → get_elem? c.recording.complete i ≡ some a
      → Resolves event c (
          done tt
            (record c { replay = record { active = true; anchor_idx = i; event_idx = a.start } }))
  refused :
      IsAbsent c.recording.complete event.alias_of (length c.recording.complete)
      → Resolves event c (failed invalid_alias c)

module _ {P H : Type 0} where
  -- An alias starts the replay of the last complete anchor with its name at the first event of that
  -- anchor; with no such anchor it fails with CYAML_ERR_INVALID_ALIAS and changes nothing.
  pub handle_alias_lem : (event : Event) (c : Ctx P H) → Resolves event c (handle_alias event c)
  unfolding handle_alias
  handle_alias_lem event c =
      go (find_anchor c.recording.complete event.alias_of (length c.recording.complete)) refl (
        find_anchor_lem c.recording.complete event.alias_of (length c.recording.complete)
          (omega arith))
    where
      go :
          (o : Option ℕ)
          → find_anchor c.recording.complete event.alias_of (length c.recording.complete) ≡ o
          → Found c.recording.complete event.alias_of
              (length c.recording.complete)
              (find_anchor c.recording.complete event.alias_of (length c.recording.complete))
          → Resolves event c (handle_alias event c)
      go none e k = rw (e, handle_alias) (refused (rw e at k))
      go (some i) e k =
          let found : IsLast c.recording.complete event.alias_of (length c.recording.complete) i =
            rw e at k in
          let (a, at, _) = found.1 in rw (e, handle_alias, at) (replays i a found at)
