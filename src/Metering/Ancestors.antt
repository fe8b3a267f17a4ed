-- ===== src/Metering/Ancestors.antt =====
-- The recursion of `componentForMeter` in internal/billing/metering.go ends.
use Prim.Native.String.{String}
use model_bridge.Base.{
  ℕ, suc, ◌≡◌, refl, subst, Bool, true, false, Option, none, some, if◌then◌else◌, Option-cases,
  Bool-cases, inl, inr, [], ◌∷◌,
}
use model_bridge.Base.Texts.{Map, str_eq}
use model_bridge.Metering.Defs.{PriceComponent}
use model_bridge.Metering.Select.{
  is_among, parent_meter, own_component, component_within, component_for_meter,
}

-- A meter that may have a parent has at most two ancestors.
abbrev RootAbove : Option String → Type 0
RootAbove none = Unit
RootAbove (some q) = parent_meter q ≡ none

abbrev ShallowAbove : Option String → Type 0
ShallowAbove none = Unit
ShallowAbove (some p) = RootAbove (parent_meter p)

record Shallow (o : Option String) : Type 0 where
  pub above : ShallowAbove o

Shallow-if : (b : Bool) (x y : Option String) → Shallow x → Shallow y → Shallow (if b then x else y)
Shallow-if true x y p q = p
Shallow-if false x y p q = q

Shallow-none : Shallow none
Shallow-none = record { above = tt }

Shallow-root : (p : String) → parent_meter p ≡ none → Shallow (some p)
Shallow-root p root = record { above = rw root tt }

Shallow-middle : (p q : String) → parent_meter p ≡ some q → parent_meter q ≡ none → Shallow (some p)
Shallow-middle p q up root = record { above = rw up root }

parent_meter-Shallow : (c : String) → Shallow (parent_meter c)
unfolding parent_meter
parent_meter-Shallow c =
    let input = Shallow-root "input_tokens" refl in
    let output = Shallow-root "output_tokens" refl in
    Shallow-if
      (is_among c (
        "cached_input_tokens" ∷ "cache_creation_tokens" ∷ "cached_input_tokens_priority"
        ∷ "cached_input_tokens_flex" ∷ "cache_creation_tokens_priority"
        ∷ "cache_creation_tokens_flex" ∷ []))
      _ _ input
      (Shallow-if (str_eq c "cache_creation_1h_tokens") _ _
        (Shallow-middle "cache_creation_tokens" "input_tokens" refl refl)
        (Shallow-if (str_eq c "reasoning_tokens") _ _ output (
          Shallow-if
            (is_among c ("input_audio_tokens" ∷ "input_image_tokens" ∷ "input_video_tokens" ∷ [])) _
            _ input
            (Shallow-if
              (is_among c
                ("output_audio_tokens" ∷ "output_image_tokens" ∷ "output_video_tokens" ∷ []))
              _ _ output
              (Shallow-if (is_among c ("cache_creation_audio_tokens" ∷ "cached_audio_tokens" ∷ []))
                _ _ (Shallow-middle "input_audio_tokens" "input_tokens" refl refl)
                (Shallow-if (str_eq c "cached_image_tokens") _ _
                  (Shallow-middle "input_image_tokens" "input_tokens" refl refl)
                  (Shallow-if (str_eq c "cached_video_tokens") _ _
                    (Shallow-middle "input_video_tokens" "input_tokens" refl refl)
                    Shallow-none)))))))

-- Two depths give the same answer.
abbrev Answers : ℕ → ℕ → Map PriceComponent → String → String → Type 0
Answers n m components c tier =
    (answer : Option PriceComponent) × (component_within n components c tier ≡ some answer)
    × (component_within m components c tier ≡ some answer)

-- Two depths answer at a meter if they answer at its parent.
component_within-Answers :
    (n m : ℕ) (components : Map PriceComponent) (c tier : String)
    → ((p : String) → parent_meter c ≡ some p → Answers n m components p tier)
    → Answers (suc n) (suc m) components c tier
unfolding component_within
component_within-Answers n m components c tier h =
    elim (Option-cases (own_component components c tier)) [
      | inr (found, o) ↦ (some found, rw (o, component_within) refl, rw (o, component_within) refl)
      | inl o ↦ elim (Option-cases (parent_meter c)) [
        | inl e ↦ (none, rw (o, e, component_within) refl, rw (o, e, component_within) refl)
        | inr (p, e) ↦ elim (Bool-cases (str_eq p c)) [
          | inl same ↦
              (none, rw (o, e, same, component_within) refl, rw (o, e, same, component_within) refl)
          | inr other ↦
              let (answer, left, right) = h p e in
              (
                answer,
                rw (o, e, other, component_within) left,
                rw (o, e, other, component_within) right,
              )
        ]
      ]
    ]

no_third :
    (c p q r : String)
    → parent_meter c ≡ some p
    → parent_meter p ≡ some q
    → parent_meter q ≡ some r
    → Shallow (parent_meter c)
    → ⊥
no_third c p q r e f g s =
    let top : ShallowAbove (some p) = subst ShallowAbove e s.above in
    let root : RootAbove (some q) = subst RootAbove f top in cc (root, g)

-- The climb to a component with a price ends, whatever components there are: three levels, those of
-- a meter and its two possible ancestors, give an answer, a component or that there is none, and
-- any further depth gives the same.
pub component_for_meter-enough :
    (n : ℕ) (components : Map PriceComponent) (c tier : String)
    → component_within (suc (suc (suc n))) components c tier
      ≡ some (component_for_meter components c tier)
unfolding component_for_meter
component_for_meter-enough n components c tier =
    let (answer, deep, three) = component_within-Answers (suc (suc n)) 2 components c tier (λ p e.
      component_within-Answers (suc n) 1 components p tier (λ q f.
        component_within-Answers n 0 components q tier
          (λ r g. absurd (no_third c p q r e f g (parent_meter-Shallow c))))) in
    rw (three, deep) refl
