-- ===== src/OsSensor/Config/Rule.antt =====
-- Parsers that fail on the parameters alone, and what a list of them makes.
use Prim.Native.String.{String}
use ouster_ros.Prelude.{
  ◌≡◌, refl, Bool, true, false, not, ◌&&◌, ◌||◌, Option, none, some, List, [], ◌∷◌, map,
  if◌then◌else◌, arith, Bool-cases, Option-cases, inl, inr, ◌>>=◌,
}
use ouster_ros.Ros.{Params, param, is_arg_set}
use ouster_ros.OsSensor.Config.{Sdk, Parsed}
use ouster_ros.OsSensor.Config.Value.{Step, parse_enum}
use ouster_ros.OsSensor.Config.Parse.{run_parsers}

abbrev pub or_else {ℓ} : {A : Type ℓ} → Option A → Option A → Option A
or_else none d = d
or_else (some v) d = some v

abbrev pub is_some {ℓ} : {A : Type ℓ} → Option A → Bool
is_some none = false
is_some (some v) = true

-- What a number sets, unless it is the one that leaves the member.
abbrev pub unless {ℓ} : {A : Type ℓ} → Bool → A → Option A
unless true v = none
unless false v = some v

module _ {R : Type 0} (sdk : Sdk R) (p : Params R) where
  -- The value that a text names.
  abbrev pub named : {E : Type 0} → String → (String → Option E) → Option E
  named name of_string =
      let arg = param p.text name "" in if is_arg_set arg then of_string arg else none

  -- A text that is not set, or names a value.
  abbrev pub is_named : {E : Type 0} → String → (String → Option E) → Bool
  is_named name of_string =
      let arg = param p.text name "" in if is_arg_set arg then is_some (of_string arg) else true

  -- A parser that fails on the parameters alone, and what it writes.
  pub record Rule : Type 0 where
    pub step : Step sdk p
    pub ok : Bool
    pub write : Parsed sdk → Parsed sdk
    pub law : (t : Parsed sdk) → step t ≡ (if ok then some (write t) else none)

  unfoldable pub all_ok : List Rule → Bool
  all_ok [] = true
  all_ok (r ∷ rs) = r.ok && all_ok rs

  unfoldable pub write_all : List Rule → Parsed sdk → Parsed sdk
  write_all [] t = t
  write_all (r ∷ rs) t = write_all rs (r.write t)

  pub run_parsers-rules :
      (rs : List Rule) (t : Parsed sdk)
      → run_parsers sdk p (map (λ r. r.step) rs) t
        ≡ (if all_ok rs then some (write_all rs t) else none)
  unfolding run_parsers all_ok write_all
  run_parsers-rules [] t = refl
  run_parsers-rules (r ∷ rs) t = ground (arith, r.law t, run_parsers-rules rs (r.write t))

  pub seq_law :
      (a b : Rule) (t : Parsed sdk)
      → (a.step t >>= b.step) ≡ (if a.ok && b.ok then some (b.write (a.write t)) else none)
  seq_law a b t = ground (arith, a.law t, b.law (a.write t))

  pub except_law :
      (bad : Bool) (t : Parsed sdk)
      → (if bad then none else some t) ≡ (if not bad then some t else none)
  except_law bad t = ground arith

  -- One rule after another.
  abbrev pub seq : Rule → Rule → Rule
  seq a b = record {
    step = λ t. a.step t >>= b.step;
    ok = a.ok && b.ok;
    write = λ t. b.write (a.write t);
    law = seq_law a b;
  }

  abbrev pub always : (Parsed sdk → Parsed sdk) → Rule
  always write = record { step = λ t. some (write t); ok = true; write = write; law = λ t. refl }

  abbrev pub when : Bool → (Parsed sdk → Parsed sdk) → Rule
  when ok write = record {
    step = λ t. if ok then some (write t) else none;
    ok = ok;
    write = write;
    law = λ t. refl;
  }

  abbrev pub except : Bool → (Parsed sdk → Parsed sdk) → Rule
  except bad write = record {
    step = λ t. if bad then none else some (write t);
    ok = not bad;
    write = write;
    law = λ t. except_law bad (write t);
  }

  module _ {E : Type 0} (member : (Option E → Option E) → Parsed sdk → Parsed sdk)
      (kept : (t : Parsed sdk) → member (λ o. o) t ≡ t) where
    pub guarded_law :
        (skip ok : Bool) (v : E) (t : Parsed sdk)
        → (if skip then some t else if ok then some (member (λ o. some v) t) else none)
          ≡ (if skip || ok then some (member (or_else (unless skip v)) t) else none)
    guarded_law skip ok v t = ground (arith, kept t)

    -- A member that is left, set to a valid value, or of no valid value.
    abbrev pub guarded : Bool → Bool → E → Rule
    guarded skip ok v = record {
      step = λ t. if skip then some t else if ok then some (member (λ o. some v) t) else none;
      ok = skip || ok;
      write = member (or_else (unless skip v));
      law = guarded_law skip ok v;
    }

    pub parse_enum_lem :
        (name : String) (of_string : String → Option E) (t : Parsed sdk)
        → parse_enum sdk p name of_string (λ v. member (λ o. some v)) t ≡ (
            if is_named name of_string
            then some (member (or_else (named name of_string)) t)
            else none)
    parse_enum_lem name of_string t =
        let arg = param p.text name "" in
        elim (Bool-cases (is_arg_set arg)) [
          | inl given ↦ elim (Option-cases (of_string arg)) [
            | inl e ↦ ground (arith, given, e)
            | inr (v, e) ↦ ground (arith, given, e)
          ]
          | inr e ↦ ground (arith, e, kept t)
        ]

    abbrev pub enum : String → (String → Option E) → Rule
    enum name of_string = record {
      step = parse_enum sdk p name of_string (λ v. member (λ o. some v));
      ok = is_named name of_string;
      write = member (or_else (named name of_string));
      law = parse_enum_lem name of_string;
    }
