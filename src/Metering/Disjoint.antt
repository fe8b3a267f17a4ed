-- ===== src/Metering/Disjoint.antt =====
-- After normalisation the detail meters of a parent meter are disjoint parts of it.
use Prim.Native.String.{String}
use model_bridge.Base.{
  not-true, ℕ, ◌-◌, ◌≤◌, ◌≡◌, refl, ap, ◌∙◌, min, Bool, true, false, List, [], ◌∷◌, inl, inr,
  if◌then◌else◌, is_some, sum_by, not, ◌&&◌, arith, Option-cases, Bool-cases,
}
use model_bridge.Base.Texts.{str_eq, lookup, insert, lookup-insert, eq_iff}
use model_bridge.Metering.Defs.{Quantities}
use model_bridge.Metering.Usage.{
  quantity_of, limit_child, limit_children, limit_children_to_parent, input_children,
  output_children, audio_children, image_children, video_children, ensure_parents,
  normalize_metered_relationships,
}

-- No code of the list is `d`. Boolean, so that lists of literals are checked by evaluation.
abbrev pub avoids : String → List String → Bool
avoids d [] = true
avoids d (c ∷ cs) = not (str_eq c d) && avoids d cs

abbrev pub avoids_each : List String → List String → Bool
avoids_each [] cs = true
avoids_each (d ∷ ds) cs = avoids d cs && avoids_each ds cs

abbrev pub distinct : List String → Bool
distinct [] = true
distinct (c ∷ cs) = avoids c cs && distinct cs

and_split : (a b : Bool) → (a && b) ≡ true → (a ≡ true) × (b ≡ true)
and_split a b h = ground arith

pub quantity_of-insert :
    (k j : String) (v : ℕ) (u : Quantities)
    → quantity_of (insert k v u) j ≡ (if str_eq k j then v else quantity_of u j)
quantity_of-insert k j v u =
    rw (lookup-insert k j v u) (elim (Bool-cases (str_eq k j)) [ inl e ↦ rw e | inr e ↦ rw e ])

-- One write of the loop changes no other meter, and leaves the child at the smaller value.
limit_child-other :
    (c d : String) (v : ℕ) (u : Quantities)
    → str_eq c d ≡ false
    → quantity_of (limit_child c v u) d ≡ quantity_of u d
unfolding limit_child
limit_child-other c d v u h = elim (Bool-cases (is_some (lookup c u))) [
  | inl e ↦ rw (e, quantity_of-insert c d v u, h)
  | inr e ↦ rw e
]

limit_child_self :
    (c : String) (r : ℕ) (u : Quantities)
    → quantity_of (limit_child c (min (quantity_of u c) r) u) c ≡ min (quantity_of u c) r
unfolding limit_child
limit_child_self c r u = elim (Option-cases (lookup c u)) [
  | inl e ↦ ground arith
  | inr (v, e) ↦
      ground (arith, quantity_of-insert c c (min v r) u, (eq_iff c c).1 refl, ap is_some e)
]

pub limit_children-other :
    (d : String) (r : ℕ) (cs : List String) (u : Quantities)
    → avoids d cs ≡ true
    → quantity_of (limit_children r cs u) d ≡ quantity_of u d
unfolding limit_children
limit_children-other d r [] u h = refl
limit_children-other d r (c ∷ cs) u h =
    let (here, later) = and_split (not (str_eq c d)) (avoids d cs) h in
    let v : ℕ = min (quantity_of u c) r in
    limit_children-other d (r - v) cs (limit_child c v u) later
    ∙ limit_child-other c d v u (not-true (str_eq c d) here)

-- The loop gives away no more than it was given.
limit_children-sum :
    (r : ℕ) (cs : List String) (u : Quantities)
    → distinct cs ≡ true
    → sum_by (quantity_of (limit_children r cs u)) cs ≤ r
unfolding limit_children
limit_children-sum r [] u h = omega arith
limit_children-sum r (c ∷ cs) u h =
    let (here, later) = and_split (avoids c cs) (distinct cs) h in
    let v : ℕ = min (quantity_of u c) r in
    omega (
      arith,
      limit_children-sum (r - v) cs (limit_child c v u) later,
      limit_children-other c (r - v) cs (limit_child c v u) here,
      limit_child_self c r u,
    )

sum-limit_children-other :
    (r : ℕ) (cs ds : List String) (u : Quantities)
    → avoids_each ds cs ≡ true
    → sum_by (quantity_of (limit_children r cs u)) ds ≡ sum_by (quantity_of u) ds
sum-limit_children-other r cs [] u h = refl
sum-limit_children-other r cs (d ∷ ds) u h =
    let (here, later) = and_split (avoids d cs) (avoids_each ds cs) h in
    omega (arith, limit_children-other d r cs u here, sum-limit_children-other r cs ds u later)

-- A parent meter covers the sum of its detail meters.
abbrev pub Covers : String → List String → Quantities → Type 0
Covers parent cs u = sum_by (quantity_of u) cs ≤ quantity_of u parent

pub record IsDisjoint (u : Quantities) : Type 0 where
  pub input : Covers "input_tokens" input_children u
  pub audio : Covers "input_audio_tokens" audio_children u
  pub image : Covers "input_image_tokens" image_children u
  pub video : Covers "input_video_tokens" video_children u
  pub output : Covers "output_tokens" output_children u

module _ (parent : String) (cs : List String) (u : Quantities) where
  -- Limiting one family bounds it, if the parent is not its own child.
  limit-Covers :
      distinct cs ≡ true
      → avoids parent cs ≡ true
      → Covers parent cs (limit_children_to_parent parent cs u)
  unfolding limit_children_to_parent
  limit-Covers d a =
      let r : ℕ = quantity_of u parent in
      omega (arith, limit_children-sum r cs u d, limit_children-other parent r cs u a)

  -- It leaves a family that shares no meter with it as it was.
  limit-Covers_other :
      (p : String) (ds : List String)
      → avoids_each (p ∷ ds) cs ≡ true
      → Covers p ds u
      → Covers p ds (limit_children_to_parent parent cs u)
  unfolding limit_children_to_parent
  limit-Covers_other p ds a h =
      let (here, later) = and_split (avoids p cs) (avoids_each ds cs) a in
      let r : ℕ = quantity_of u parent in
      omega (arith, limit_children-other p r cs u here, sum-limit_children-other r cs ds u later)

-- Whatever totals and details a provider reports, after normalisation the details of each parent
-- meter add up to no more than the parent, so that no token can be priced twice.
pub normalize_metered_relationships-IsDisjoint :
    (u : Quantities) → IsDisjoint (normalize_metered_relationships u)
unfolding normalize_metered_relationships
normalize_metered_relationships-IsDisjoint u =
    let u0 = ensure_parents u in
    let u1 = limit_children_to_parent "input_tokens" input_children u0 in
    let u2 = limit_children_to_parent "input_audio_tokens" audio_children u1 in
    let u3 = limit_children_to_parent "input_image_tokens" image_children u2 in
    let u4 = limit_children_to_parent "input_video_tokens" video_children u3 in
    let after_audio = limit-Covers_other "input_audio_tokens" audio_children u1 in
    let after_image = limit-Covers_other "input_image_tokens" image_children u2 in
    let after_video = limit-Covers_other "input_video_tokens" video_children u3 in
    let after_output = limit-Covers_other "output_tokens" output_children u4 in
    record {
      input = after_output "input_tokens" input_children refl (
          after_video "input_tokens" input_children refl (
            after_image "input_tokens" input_children refl (
              after_audio "input_tokens" input_children refl
                (limit-Covers "input_tokens" input_children u0 refl refl))));
      audio = after_output "input_audio_tokens" audio_children refl (
          after_video "input_audio_tokens" audio_children refl (
            after_image "input_audio_tokens" audio_children refl
              (limit-Covers "input_audio_tokens" audio_children u1 refl refl)));
      image = after_output "input_image_tokens" image_children refl (
          after_video "input_image_tokens" image_children refl
            (limit-Covers "input_image_tokens" image_children u2 refl refl));
      video =
          after_output "input_video_tokens" video_children refl
            (limit-Covers "input_video_tokens" video_children u3 refl refl);
      output = limit-Covers "output_tokens" output_children u4 refl refl;
    }
