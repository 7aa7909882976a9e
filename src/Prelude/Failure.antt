-- ===== src/Prelude/Failure.antt =====
-- How a C function of the extension ends: with a value, with a report of level ERROR, in a crash
-- (a NULL pointer is dereferenced), or, in the model of a loop, at the end of its fuel.
use mathlib.Core.Path.{◌≡◌, refl, ap}
use mathlib.Core.Bool.{Bool, true, false}
use mathlib.Core.Option.{Option, none, some}

-- The reports that the modelled functions make.
pub data Report : Type 0 where
  label_id_range entry_id_range null_id : Report
  no_parent_match unknown_direction null_argument : Report
  scalar_mismatch invalid_scalar : Report
  unexpected_value invalid_container state_token : Report
  too_large too_many : Report
  invalid_token unescaped_control hex_digits lone_surrogate untranslatable invalid_escape : Report
  unexpected_end expected_end expected_value expected_string expected_array_element : Report
  expected_array_next expected_object_start expected_colon expected_object_next : Report
  invalid_annotation invalid_token_type unexpected_parent string_too_long : Report
  unknown_scalar conversion : Report

pub data Outcome {ℓ} (A : Type ℓ) : Type ℓ where
  ok : A → Outcome A
  error : Report → Outcome A
  crash : Outcome A
  out_of_fuel : Outcome A

module _ {ℓ κ} {A : Type ℓ} {B : Type κ} where
  infixl 5 ◌>>=◌
  abbrev pub ◌>>=◌ : Outcome A → (A → Outcome B) → Outcome B
  ok value >>= next = next value
  error report >>= next = error report
  crash >>= next = crash
  out_of_fuel >>= next = out_of_fuel

infixl 5 ◌>>◌
abbrev pub ◌>>◌ {ℓ} : {B : Type ℓ} → Outcome (Unit {0}) → Outcome B → Outcome B
first >> second = first >>= λ done. second

abbrev pub map_ok {ℓ κ} : {A : Type ℓ} {B : Type κ} → (A → B) → Outcome A → Outcome B
map_ok f (ok value) = ok (f value)
map_ok f (error report) = error report
map_ok f crash = crash
map_ok f out_of_fuel = out_of_fuel

-- `if (!test) ereport(ERROR, …)`
abbrev pub guard : Bool → Report → Outcome (Unit {0})
guard true report = ok tt
guard false report = error report

-- A read through a pointer that may be NULL.
abbrev pub or_crash {ℓ} : {A : Type ℓ} → Option A → Outcome A
or_crash none = crash
or_crash (some a) = ok a

-- The call returns, and what it returns is true.
abbrev pub returns_true : Outcome Bool → Bool
returns_true (ok b) = b
returns_true (error report) = false
returns_true crash = false
returns_true out_of_fuel = false

pub returns_true-ok : (answer : Outcome Bool) → returns_true answer ≡ true → answer ≡ ok true
returns_true-ok (ok b) h = ap ok h
returns_true-ok (error report) h = cc
returns_true-ok crash h = cc
returns_true-ok out_of_fuel h = cc

-- Both parts of a chain that returns a value return one.
pub >>=-eq-ok {ℓ κ} :
    {A : Type ℓ} {B : Type κ} (first : Outcome A) (next : A → Outcome B) {result : B}
    → (first >>= next) ≡ ok result
    → (value : A) × (first ≡ ok value) × (next value ≡ ok result)
>>=-eq-ok (ok value) next run = (value, refl, run)
>>=-eq-ok (error report) next run = cc
>>=-eq-ok crash next run = cc
>>=-eq-ok out_of_fuel next run = cc

pub bind_assoc {ℓ κ μ} :
    {A : Type ℓ} {B : Type κ} {C : Type μ} (first : Outcome A) (f : A → Outcome B)
    (g : B → Outcome C)
    → ((first >>= f) >>= g) ≡ (first >>= (λ a. f a >>= g))
bind_assoc (ok value) f g = refl
bind_assoc (error report) f g = refl
bind_assoc crash f g = refl
bind_assoc out_of_fuel f g = refl

-- The fuel was enough, and a value that was returned has the property.
module _ {ℓ} {A : Type ℓ} where
  abbrev pub Returns : (A → Type 0) → Outcome A → Type 0
  Returns P (ok value) = P value
  Returns P (error report) = Unit {0}
  Returns P crash = Unit {0}
  Returns P out_of_fuel = ⊥

  abbrev pub Anything : A → Type 0
  Anything value = Unit {0}

-- The step that follows needs only the property of what the first one returned.
pub Returns->>= {ℓ κ} :
    {A : Type ℓ} {B : Type κ} (P : A → Type 0) (Q : B → Type 0) (first : Outcome A)
    (next : A → Outcome B)
    → Returns P first
    → ((value : A) → P value → Returns Q (next value))
    → Returns Q (first >>= next)
Returns->>= P Q (ok value) next p follows = follows value p
Returns->>= P Q (error report) next p follows = tt
Returns->>= P Q crash next p follows = tt
Returns->>= P Q out_of_fuel next p follows = p

pub Returns-weaken {ℓ} :
    {A : Type ℓ} (P Q : A → Type 0) (first : Outcome A)
    → ((value : A) → P value → Q value)
    → Returns P first
    → Returns Q first
Returns-weaken P Q (ok value) weaker p = weaker value p
Returns-weaken P Q (error report) weaker p = p
Returns-weaken P Q crash weaker p = p
Returns-weaken P Q out_of_fuel weaker p = p

pub Returns-or_crash {ℓ} : {A : Type ℓ} (value : Option A) → Returns Anything (or_crash value)
Returns-or_crash none = tt
Returns-or_crash (some value) = tt
