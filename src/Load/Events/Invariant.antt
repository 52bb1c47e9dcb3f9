-- ===== src/Load/Events/Invariant.antt =====
-- The invariant of the event context of src/load.c: every index that the recording holds is in range,
-- and the open anchors match open collections.
use mathlib.Core.Path.{subst}
use libcyaml.Base.{ℕ, suc, ◌≤◌, ◌<◌, ◌≡◌, ◌≢◌, sym, arith, ◌⊎◌, inl, inr}
use libcyaml.Base.{true, false, some, List, [], ◌∷◌, ◌++◌, length}
use libcyaml.Base.{get_elem?-append_some, get_elem?, All, All-append}
use libcyaml.Load.Events.{EventType, Anchor, Recording, Replaying, Ctx, starts_collection}

-- The open anchors, innermost first, start at some of the open collections, in the same order, and
-- the outermost of both is one.
abbrev pub Nested : List Anchor → List ℕ → Type 0
Nested [] [] = Unit
Nested [] (s ∷ stack) = ⊥
Nested (a ∷ progress) [] = ⊥
Nested (a ∷ progress) (s ∷ stack) =
    ((a.start ≡ s) × Nested progress stack) ⊎ ((a.start ≢ s) × Nested (a ∷ progress) stack)

abbrev pub Closed : ℕ → Anchor → Type 0
Closed n a = (a.start ≤ a.end) × (a.end < n)

pub record IsRecorded (r : Recording) : Type 0 where
  pub complete_ok : All (Closed (length r.events)) r.complete
  pub data_ok : All (λ i. i < length r.data_) r.events
  pub progress_ok : All (λ a. a.start < length r.events) r.progress
  pub nested : Nested r.progress r.stack

-- A replay stands inside its anchor.
abbrev pub IsReplayable : Recording → Replaying → Type 0
IsReplayable r p =
    p.active ≡ true
    → (a : Anchor) × (get_elem? r.complete p.anchor_idx ≡ some a) × (p.event_idx ≤ a.end)

-- The state just before an index is recorded, by the type of the event.
pub data Ready (n : ℕ) : List Anchor → List ℕ → EventType → Type 0 where
  opened :
      {a : Anchor} {progress : List Anchor} {stack : List ℕ} {t : EventType}
      → starts_collection t ≡ true
      → a.start ≡ n
      → All (λ b. b.start < n) progress
      → Nested progress stack
      → Ready n (a ∷ progress) stack t
  within :
      {a : Anchor} {progress : List Anchor} {stack : List ℕ} {t : EventType}
      → All (λ b. b.start < n) (a ∷ progress)
      → Nested (a ∷ progress) stack
      → Ready n (a ∷ progress) stack t
  alone : {t : EventType} → t ≡ EventType.scalar → Ready n [] [] t

pub All-mono {ℓ κ} :
    {A : Type ℓ} (P Q : A → Type κ) (xs : List A) → ((x : A) → P x → Q x) → All P xs → All Q xs
All-mono P Q [] f h = h
All-mono P Q (x ∷ xs) f (hx, h) = (f x hx, All-mono P Q xs f h)

abbrev pub Good : {P H : Type 0} → Ctx P H → Type 0
Good c = IsRecorded c.recording × IsReplayable c.recording c.replay

-- The state when the index `n` has been recorded and the anchors are still to be updated.
pub record IsPending (n : ℕ) (t : EventType) (r : Recording) (p : Replaying) : Type 0 where
  pub counted : length r.events ≡ suc n
  pub complete_ok : All (Closed (suc n)) r.complete
  pub data_ok : All (λ i. i < length r.data_) r.events
  pub ready : Ready n r.progress r.stack t
  pub replayable : IsReplayable r p

-- Before an index is recorded: the invariant, but for an anchor that the event opens.
pub record IsPrepared (t : EventType) (r : Recording) (p : Replaying) : Type 0 where
  pub complete_ok : All (Closed (suc (length r.events))) r.complete
  pub data_ok : All (λ i. i < length r.data_) r.events
  pub ready : Ready (length r.events) r.progress r.stack t
  pub replayable : IsReplayable r p

below_suc : (n : ℕ) (xs : List Anchor) → All (λ b. b.start < n) xs → All (λ b. b.start < suc n) xs
below_suc n xs h = All-mono (λ b. b.start < n) (λ b. b.start < suc n) xs (λ x lt. omega arith) h

-- A collection starts.
pub push_ok :
    (n : ℕ) (t : EventType) (r : Recording) (p : Replaying)
    → starts_collection t ≡ true
    → IsPending n t r p
    → IsRecorded (record r { stack = n ∷ r.stack })
      × IsReplayable (record r { stack = n ∷ r.stack }) p
push_ok n t r p s w = (go r w, w.replayable)
  where
    nested : (ps : List Anchor) (st : List ℕ) → Ready n ps st t → Nested ps (n ∷ st)
    nested _ _ (opened e at below k) = inl (at, k)
    nested _ _ (within below k) = inr (omega (arith, below.0), k)
    nested _ _ (alone e) = cc

    starts : (ps : List Anchor) (st : List ℕ) → Ready n ps st t → All (λ b. b.start < suc n) ps
    starts _ _ (opened {progress = qs} e at below k) = (omega (arith, at), below_suc n qs below)
    starts _ _ (within {a = b} {progress = qs} below k) = below_suc n (b ∷ qs) below
    starts _ _ (alone e) = tt

    go : (r : Recording) → IsPending n t r p → IsRecorded (record r { stack = n ∷ r.stack })
    go r w = record {
      complete_ok = rw w.counted w.complete_ok;
      data_ok = w.data_ok;
      progress_ok = rw w.counted (starts r.progress r.stack w.ready);
      nested = nested r.progress r.stack w.ready;
    }

-- A collection ends: the innermost open anchor is closed if it started with that collection.
pub closed_ok :
    (n : ℕ) (t : EventType) (r : Recording) (p : Replaying) (a : Anchor) (ps : List Anchor) (s : ℕ)
    (st : List ℕ)
    → starts_collection t ≡ false
    → IsPending n t r p
    → All (λ b. b.start < n) (a ∷ ps)
    → Nested ps st
    → let closed = record r {
      complete = r.complete ++ (record a { end = n } ∷ []);
      progress = ps;
      stack = st;
    } in
      IsRecorded closed × IsReplayable closed p
closed_ok n t r p a ps s st e w below k = (
  record {
    complete_ok = rw w.counted (All-append (Closed (suc n)) r.complete _ w.complete_ok (here, tt));
    data_ok = w.data_ok;
    progress_ok = rw w.counted (below_suc n ps below.1);
    nested = k;
  },
  λ on.
      let (b, at, le) = w.replayable on in
      (b, get_elem?-append_some r.complete _ p.anchor_idx at, le),
)
  where
    here : Closed (suc n) (record a { end = n })
    here = omega (arith, below.0)

-- A collection inside the innermost open anchor ends.
pub popped_ok :
    (n : ℕ) (t : EventType) (r : Recording) (p : Replaying) (a : Anchor) (ps : List Anchor)
    (st : List ℕ)
    → IsPending n t r p
    → All (λ b. b.start < n) (a ∷ ps)
    → Nested (a ∷ ps) st
    → let popped = record r { progress = a ∷ ps; stack = st } in
      IsRecorded popped × IsReplayable popped p
popped_ok n t r p a ps st w below k = (
  record {
    complete_ok = rw w.counted w.complete_ok;
    data_ok = w.data_ok;
    progress_ok =
        subst (λ m. All (λ b. b.start < m) (a ∷ ps)) (sym w.counted) (below_suc n (a ∷ ps) below);
    nested = k;
  },
  w.replayable,
)

-- Any other event changes no anchor.
pub other_ok :
    (n : ℕ) (t : EventType) (r : Recording) (p : Replaying)
    → starts_collection t ≡ false
    → IsPending n t r p
    → IsRecorded r × IsReplayable r p
other_ok n t r p e w = (
  record {
    complete_ok = rw w.counted w.complete_ok;
    data_ok = w.data_ok;
    progress_ok = rw w.counted (starts r.progress r.stack w.ready);
    nested = nested r.progress r.stack w.ready;
  },
  w.replayable,
)
  where
    nested : (ps : List Anchor) (st : List ℕ) → Ready n ps st t → Nested ps st
    nested _ _ (opened s at below k) = cc
    nested _ _ (within below k) = k
    nested _ _ (alone s) = tt

    starts : (ps : List Anchor) (st : List ℕ) → Ready n ps st t → All (λ b. b.start < suc n) ps
    starts _ _ (opened s at below k) = cc
    starts _ _ (within {a = b} {progress = qs} below k) = below_suc n (b ∷ qs) below
    starts _ _ (alone s) = tt
