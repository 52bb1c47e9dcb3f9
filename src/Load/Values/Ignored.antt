-- ===== src/Load/Values/Ignored.antt =====
-- `cyaml__consume_ignored_value` of src/load.c on the events of one value.
use libcyaml.Base.{ℕ, zero, suc, ◌+◌, ◌^◌, ◌<◌, ◌≡◌, refl, ap, ◌∙◌, arith}
use libcyaml.Base.{Bool, true, false, Option}
use libcyaml.Outcome.{done, bind_done}
use libcyaml.Load.Events.{EventType, Event, Ctx}
use libcyaml.Load.Values.{next, next_level, consume_loop, consume_ignored_value}
use Prim.Native.Nat.{max}
use native.Mathlib.Nat.{mod-eq_of_lt}

-- The shape of a value's events: a single event, or a sequence or mapping of values.
mutual
  pub data Shape : Type 0 where
    single : Shape
    collection : Shapes → Shape

  pub data Shapes : Type 0 where
    none_left : Shapes
    more : Shape → Shapes → Shapes

unfoldable mutual
  pub size : Shape → ℕ
  size single = 1
  size (collection xs) = size_all xs + 2

  pub size_all : Shapes → ℕ
  size_all none_left = 0
  size_all (more x xs) = size x + size_all xs

unfoldable mutual
  pub depth : Shape → ℕ
  depth single = 0
  depth (collection xs) = suc (depth_all xs)

  pub depth_all : Shapes → ℕ
  depth_all none_left = 0
  depth_all (more x xs) = max (depth x) (depth_all xs)

abbrev pub starts : EventType → Bool
starts EventType.seq_start = true
starts EventType.map_start = true
starts _ = false

abbrev pub ends : EventType → Bool
ends EventType.seq_end = true
ends EventType.map_end = true
ends _ = false

-- The level after an event.
level_starts :
    (t : EventType) (level : ℕ)
    → starts t ≡ true
    → level + 1 < 2 ^ 32
    → next_level t level ≡ suc level
unfolding next_level
level_starts EventType.seq_start level e h = mod-eq_of_lt h ∙ omega arith
level_starts EventType.map_start level e h = mod-eq_of_lt h ∙ omega arith
level_starts _ level e h = cc

level_ends : (t : EventType) (level : ℕ) → ends t ≡ true → next_level t (suc level) ≡ level
unfolding next_level
level_ends EventType.seq_end level e = omega arith
level_ends EventType.map_end level e = omega arith
level_ends _ level e = cc

level_single :
    (t : EventType) (level : ℕ) → starts t ≡ false → ends t ≡ false → next_level t level ≡ level
unfolding next_level
level_single EventType.seq_start level e f = cc
level_single EventType.map_start level e f = cc
level_single EventType.seq_end level e f = cc
level_single EventType.map_end level e f = cc
level_single _ level e f = refl

module _ {P H : Type 0} (parse : P → Option (Event × P)) (realloc : H → ℕ → Bool × H)
    (event_size : ℕ) where
  -- The next events, from one context to another, are those of a value of the shape.
  abbrev pub Comes : Ctx P H → (EventType → Type 0) → Ctx P H → Type 0
  Comes c Is c' = (e : Event) × (next parse realloc event_size c ≡ done e c') × Is e.type

  unfoldable mutual
    pub Has : Ctx P H → Shape → Ctx P H → Type 0
    Has c single c' = Comes c (λ t. (starts t ≡ false) × (ends t ≡ false)) c'
    Has c (collection xs) c' =
        (c1 : Ctx P H) × Comes c (λ t. starts t ≡ true) c1
        × ((c2 : Ctx P H) × HasAll c1 xs c2 × Comes c2 (λ t. ends t ≡ true) c')

    pub HasAll : Ctx P H → Shapes → Ctx P H → Type 0
    HasAll c none_left c' = c ≡ c'
    HasAll c (more x xs) c' = (c1 : Ctx P H) × Has c x c1 × HasAll c1 xs c'

  refuel :
      (level : ℕ) (c : Ctx P H) {f g : ℕ}
      → f ≡ g
      → consume_loop parse realloc event_size f level c
        ≡ consume_loop parse realloc event_size g level c
  refuel level c e = ap (λ f. consume_loop parse realloc event_size f level c) e

  one_event :
      (fuel level level' : ℕ) (c c' : Ctx P H) (e : Event)
      → next parse realloc event_size c ≡ done e c'
      → next_level e.type (suc level) ≡ level'
      → consume_loop parse realloc event_size (suc fuel) (suc level) c
        ≡ consume_loop parse realloc event_size fuel level' c'
  unfolding consume_loop
  one_event fuel level level' c c' e got f =
      bind_done (next parse realloc event_size)
        (λ event. consume_loop parse realloc event_size fuel (next_level event.type (suc level))) c
        got
      ∙ ap (λ l. consume_loop parse realloc event_size fuel l c') f

  mutual
    unfolding size depth Has

    consumed :
        (x : Shape) (k level : ℕ) (c c' : Ctx P H)
        → suc level + depth x < 2 ^ 32
        → Has c x c'
        → consume_loop parse realloc event_size (size x + k) (suc level) c
          ≡ consume_loop parse realloc event_size k (suc level) c'
    consumed single k level c c' low h =
        let (e, got, (begins, closes)) = h in
        refuel (suc level) c (omega arith)
        ∙ one_event k level (suc level) c c' e got (level_single e.type (suc level) begins closes)
    consumed (collection xs) k level c c' low h =
        let (c1, (e, got, is), (c2, inner, (e2, got2, is2))) = h in
        refuel (suc level) c (omega arith)
        ∙ one_event (size_all xs + suc k) level (suc (suc level)) c c1 e got
            (level_starts e.type (suc level) is (omega (arith, low)))
        ∙ consumed_all xs (suc k) (suc level) c1 c2 (omega (arith, low)) inner
        ∙ one_event k (suc level) (suc level) c2 c' e2 got2 (level_ends e2.type (suc level) is2)

    consumed_all :
        (xs : Shapes) (k level : ℕ) (c c' : Ctx P H)
        → suc level + depth_all xs < 2 ^ 32
        → HasAll c xs c'
        → consume_loop parse realloc event_size (size_all xs + k) (suc level) c
          ≡ consume_loop parse realloc event_size k (suc level) c'
    consumed_all none_left k level c c' low h =
        refuel (suc level) c (omega arith)
        ∙ ap (λ d. consume_loop parse realloc event_size k (suc level) d) h
    consumed_all (more x xs) k level c c' low h =
        let (c1, one, rest) = h in
        refuel (suc level) c (omega arith)
        ∙ consumed x (size_all xs + k) level c c1 (omega (arith, low)) one
        ∙ consumed_all xs k level c1 c' (omega (arith, low)) rest

  -- An ignored value is consumed to its end and no further. On a value whose first event is `t`, when
  -- the events that follow are those of the rest of its shape, of fewer than 2 ^ 32 - 1 levels,
  -- `consume_ignored_value` returns, with fuel for these events, in the context behind the last one.
  pub consume_ignored_value-Has :
      (t : EventType) (xs : Shapes) (k : ℕ) (c c1 c' : Ctx P H)
      → starts t ≡ true
      → depth_all xs + 1 < 2 ^ 32
      → HasAll c xs c1
      → Comes c1 (λ u. ends u ≡ true) c'
      → consume_ignored_value parse realloc event_size (size_all xs + 1 + k) t c ≡ done true c'
  unfolding consume_ignored_value
  consume_ignored_value-Has t xs k c c1 c' begins low inner (e, got, is) =
      loop_of t begins
      ∙ refuel 1 c (omega arith)
      ∙ consumed_all xs (suc k) 0 c c1 (omega (arith, low)) inner
      ∙ one_event k 0 0 c1 c' e got (level_ends e.type 0 is)
      ∙ ended k
    where
      loop_of :
          (u : EventType)
          → starts u ≡ true
          → consume_ignored_value parse realloc event_size (size_all xs + 1 + k) u c
            ≡ consume_loop parse realloc event_size (size_all xs + 1 + k) 1 c
      loop_of EventType.scalar e = cc
      loop_of _ e = refl

      ended : (k : ℕ) → consume_loop parse realloc event_size k 0 c' ≡ done true c'
      ended zero = unfold consume_loop in refl
      ended (suc k) = unfold consume_loop in refl
