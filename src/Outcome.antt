-- ===== src/Outcome.antt =====
-- The outcome of a C function over a state: it returns with `CYAML_OK` or with an error, leaving a
-- state in both cases, or it accesses an array out of range, which C leaves undefined.
use libcyaml.Errors.{Err, Result, ok, fail}
use libcyaml.Base.{
  Bool, true, false, if◌then◌else◌, ◌≡◌, ◌≢◌, refl, Option, none, some, ◌⊎◌, inl, inr,
}

pub data Outcome {ℓ κ} (S : Type ℓ) (A : Type κ) : Type (ℓ ⊔ κ) where
  done : A → S → Outcome S A
  failed : Err → S → Outcome S A
  fault : Outcome S A

abbrev pub M {ℓ κ} : Type ℓ → Type κ → Type (ℓ ⊔ κ)
M S A = S → Outcome S A

infixl 5 ◌>>=◌ ◌>>◌
abbrev pub ◌>>=◌ {ℓ κ μ} : {S : Type ℓ} {A : Type κ} {B : Type μ} → M S A → (A → M S B) → M S B
◌>>=◌ m f s = elim (m s) [ done a s' ↦ f a s' | failed e s' ↦ failed e s' | fault ↦ fault ]

abbrev pub ◌>>◌ {ℓ μ} : {S : Type ℓ} {B : Type μ} → M S (Unit {0}) → M S B → M S B
m >> k = m >>= λ _. k

abbrev pub return {ℓ κ} : {S : Type ℓ} {A : Type κ} → A → M S A
return a s = done a s

abbrev pub raise {ℓ κ} : {S : Type ℓ} {A : Type κ} → Err → M S A
raise e s = failed e s

abbrev pub undefined {ℓ κ} : {S : Type ℓ} {A : Type κ} → M S A
undefined s = fault

abbrev pub gets {ℓ κ} : {S : Type ℓ} {A : Type κ} → (S → A) → M S A
gets f s = done (f s) s

abbrev pub modify {ℓ} : {S : Type ℓ} → (S → S) → M S (Unit {0})
modify f s = done tt (f s)

abbrev pub if_then {ℓ} : {S : Type ℓ} → Bool → M S (Unit {0}) → M S (Unit {0})
if_then true m = m
if_then false m = return tt

-- A postcondition: a normal return meets it, an error may leave any state, and there is no fault.
abbrev pub Ensures {ℓ κ} : {S : Type ℓ} {A : Type κ} → (A → S → Type 0) → Outcome S A → Type 0
Ensures Q (done a s) = Q a s
Ensures Q (failed e s) = Unit
Ensures Q fault = ⊥

pub Ensures-bind {ℓ κ μ} :
    {S : Type ℓ} {A : Type κ} {B : Type μ} (Q : A → S → Type 0) (R : B → S → Type 0) (m : M S A)
    (f : A → M S B) (s : S)
    → Ensures Q (m s)
    → ((a : A) (s' : S) → m s ≡ done a s' → Q a s' → Ensures R (f a s'))
    → Ensures R ((m >>= f) s)
Ensures-bind Q R m f s h k = go (m s) refl h
  where
    go : (o : Outcome _ _) → m s ≡ o → Ensures Q o → Ensures R ((m >>= f) s)
    go (done a s') e q = rw (e, ◌>>=◌) (k a s' e q)
    go (failed x s') e q = rw (e, ◌>>=◌) tt
    go fault e q = elim q [ ]

pub Ensures-ne-fault {ℓ κ} :
    {S : Type ℓ} {A : Type κ} (Q : A → S → Type 0) (o : Outcome S A) → Ensures Q o → o ≢ fault
Ensures-ne-fault Q (done a s) h = λ e. cc
Ensures-ne-fault Q (failed x s) h = λ e. cc
Ensures-ne-fault Q fault h = elim h [ ]

pub Ensures-done {ℓ κ} :
    {S : Type ℓ} {A : Type κ} (Q : A → S → Type 0) (o : Outcome S A) (a : A) (s : S)
    → Ensures Q o
    → o ≡ done a s
    → Q a s
Ensures-done Q o a s h e = rw e at h

pub Ensures-if {ℓ κ} :
    {S : Type ℓ} {A : Type κ} (Q : A → S → Type 0) (b : Bool) (x y : Outcome S A)
    → (b ≡ true → Ensures Q x)
    → (b ≡ false → Ensures Q y)
    → Ensures Q (if b then x else y)
Ensures-if Q true x y h k = h refl
Ensures-if Q false x y h k = k refl

pub bind_done {ℓ κ μ} :
    {S : Type ℓ} {A : Type κ} {B : Type μ} (m : M S A) (f : A → M S B) (s : S) {a : A} {s' : S}
    → m s ≡ done a s'
    → (m >>= f) s ≡ f a s'
bind_done m f s e = rw (e, ◌>>=◌) refl

pub bind_same {ℓ κ μ} :
    {S : Type ℓ} {A : Type κ} {B : Type μ} (m : M S A) (f : A → M S B) (s s' : S)
    → m s ≡ m s'
    → (m >>= f) s ≡ (m >>= f) s'
bind_same m f s s' e = rw (e, ◌>>=◌) refl

-- A postcondition of a normal return alone.
abbrev pub Leads {ℓ κ} : {S : Type ℓ} {A : Type κ} → (A → S → Type 0) → Outcome S A → Type 0
Leads Q (done a s) = Q a s
Leads Q (failed e s) = Unit
Leads Q fault = Unit

pub Leads-if {ℓ κ} :
    {S : Type ℓ} {A : Type κ} (Q : A → S → Type 0) (b : Bool) (x y : Outcome S A)
    → (b ≡ true → Leads Q x)
    → (b ≡ false → Leads Q y)
    → Leads Q (if b then x else y)
Leads-if Q true x y h k = h refl
Leads-if Q false x y h k = k refl

-- A result that touches no state.
abbrev pub lift {ℓ κ} : {S : Type ℓ} {A : Type κ} → Result A → M S A
lift (ok a) s = done a s
lift (fail e) s = failed e s

-- No undefined behaviour.
abbrev pub IsDefined {ℓ κ} : {S : Type ℓ} {A : Type κ} → Outcome S A → Type 0
IsDefined o = Ensures (λ _ _. Unit) o

pub Ensures-IsDefined {ℓ κ} :
    {S : Type ℓ} {A : Type κ} (Q : A → S → Type 0) (o : Outcome S A) → Ensures Q o → IsDefined o
Ensures-IsDefined Q (done a s) h = tt
Ensures-IsDefined Q (failed e s) h = tt
Ensures-IsDefined Q fault h = h

-- An outcome whose state stands in a larger one.
abbrev pub within {ℓ κ μ} :
    {S : Type ℓ} {T : Type κ} {A : Type μ} → (S → T) → Outcome S A → Outcome T A
within put o = elim o [ done a s ↦ done a (put s) | failed e s ↦ failed e (put s) | fault ↦ fault ]

pub Ensures-within {ℓ κ μ} :
    {S : Type ℓ} {T : Type κ} {A : Type μ} (Q : A → S → Type 0) (R : A → T → Type 0) (put : S → T)
    (o : Outcome S A)
    → ((a : A) (s : S) → Q a s → R a (put s))
    → Ensures Q o
    → Ensures R (within put o)
Ensures-within Q R put (done a s) f h = f a s h
Ensures-within Q R put (failed e s) f h = tt
Ensures-within Q R put fault f h = h

-- A postcondition of a normal return, and one of an error; and there is no fault.
abbrev pub Guards {ℓ κ} :
    {S : Type ℓ} {A : Type κ} → (S → Type 0) → (A → S → Type 0) → Outcome S A → Type 0
Guards R Q (done a s) = Q a s
Guards R Q (failed e s) = R s
Guards R Q fault = ⊥

pub Guards-bind {ℓ κ μ} :
    {S : Type ℓ} {A : Type κ} {B : Type μ} (R : S → Type 0) (Q : A → S → Type 0)
    (T : B → S → Type 0) (m : M S A) (f : A → M S B) (s : S)
    → Guards R Q (m s)
    → ((a : A) (s' : S) → Q a s' → Guards R T (f a s'))
    → Guards R T ((m >>= f) s)
Guards-bind R Q T m f s h k = go (m s) refl h
  where
    go : (o : Outcome _ _) → m s ≡ o → Guards R Q o → Guards R T ((m >>= f) s)
    go (done a s') e q = rw (e, ◌>>=◌) (k a s' q)
    go (failed x s') e q = rw (e, ◌>>=◌) q
    go fault e q = elim q [ ]

pub Guards-weaken {ℓ κ} :
    {S : Type ℓ} {A : Type κ} (R R' : S → Type 0) (Q Q' : A → S → Type 0) (o : Outcome S A)
    → Guards R Q o
    → ((s : S) → R s → R' s)
    → ((a : A) (s : S) → Q a s → Q' a s)
    → Guards R' Q' o
Guards-weaken R R' Q Q' (done a s) h j k = k a s h
Guards-weaken R R' Q Q' (failed e s) h j k = j s h
Guards-weaken R R' Q Q' fault h j k = h

pub Option-cases {ℓ} : {A : Type ℓ} (o : Option A) → (o ≡ none) ⊎ ((a : A) × (o ≡ some a))
Option-cases none = inl refl
Option-cases (some a) = inr (a, refl)

pub Result-cases : {A : Type 0} (r : Result A) → ((e : Err) × (r ≡ fail e)) ⊎ ((a : A) × (r ≡ ok a))
Result-cases (fail e) = inl (e, refl)
Result-cases (ok a) = inr (a, refl)
