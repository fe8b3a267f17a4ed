-- ===== src/Metering/Repeated.antt =====
-- `normalizeMeteredRelationships` of internal/billing/metering.go runs again wherever a usage is
-- priced: a second run changes nothing.
use Prim.Native.String.{String}
use model_bridge.Base.{
  ℕ, ◌-◌, ◌≤◌, ◌≡◌, refl, ap, min, List, [], ◌∷◌, some, false, ltb, sum_by, arith, Bool-cases,
  Option-cases, inl, inr,
}
use model_bridge.Base.Texts.{str_eq, eq_iff, lookup, insert}
use model_bridge.Metering.Defs.{Quantities}
use model_bridge.Metering.Usage.{
  quantity_of, ensure_parent_metric, limit_child, limit_children, limit_children_to_parent,
  input_children, output_children, audio_children, image_children, video_children, ensure_parents,
  normalize_metered_relationships,
}
use model_bridge.Metering.Disjoint.{Covers, IsDisjoint, normalize_metered_relationships-IsDisjoint}

-- Writing the value that is there.
insert_same : (c : String) (v : ℕ) (u : Quantities) → lookup c u ≡ some v → insert c v u ≡ u
insert_same c v [] e = cc
insert_same c v ((d, w) ∷ u) e = elim (Bool-cases (str_eq d c)) [
  | inl same ↦
      let key : d ≡ c = (eq_iff d c).0 same in
      let value : w ≡ v = cc (rw same at e) in rw same (rw (key, value) refl)
  | inr other ↦ rw other (ap (λ t. (d, w) ∷ t) (insert_same c v u (rw other at e)))
]

limit_child-kept : (c : String) (u : Quantities) → limit_child c (quantity_of u c) u ≡ u
unfolding limit_child
limit_child-kept c u = elim (Option-cases (lookup c u)) [
  | inl e ↦ rw e refl
  | inr (v, e) ↦ rw (e, insert_same c v u e) refl
]

limit_children-kept :
    (remaining : ℕ) (cs : List String) (u : Quantities)
    → sum_by (quantity_of u) cs ≤ remaining
    → limit_children remaining cs u ≡ u
unfolding limit_children
limit_children-kept remaining [] u h = refl
limit_children-kept remaining (c ∷ cs) u h =
    let fits : min (quantity_of u c) remaining ≡ quantity_of u c = omega (arith, h) in
    rw (fits, limit_child-kept c u)
      (limit_children-kept (remaining - quantity_of u c) cs u (omega (arith, h)))

-- A parent that covers its details is there, or they are all zero.
ensure_parent_metric-kept :
    (parent : String) (cs : List String) (u : Quantities)
    → Covers parent cs u
    → ensure_parent_metric parent cs u ≡ u
unfolding ensure_parent_metric
ensure_parent_metric-kept parent cs u h = elim (Option-cases (lookup parent u)) [
  | inl e ↦
      let empty : ltb 0 (sum_by (quantity_of u) cs) ≡ false = ground (arith, rw e at h) in
      rw (e, empty) refl
  | inr (v, e) ↦ rw e refl
]

-- The normalisation of the relationships leaves a usage as it is in which the details of each
-- parent meter add up to no more than the parent.
pub normalize_metered_relationships-IsDisjoint_kept :
    (u : Quantities) → IsDisjoint u → normalize_metered_relationships u ≡ u
unfolding normalize_metered_relationships ensure_parents limit_children_to_parent
normalize_metered_relationships-IsDisjoint_kept u d =
    rw
      (
        ensure_parent_metric-kept "input_audio_tokens" audio_children u d.audio,
        ensure_parent_metric-kept "input_image_tokens" image_children u d.image,
        ensure_parent_metric-kept "input_video_tokens" video_children u d.video,
        ensure_parent_metric-kept "input_tokens" input_children u d.input,
        ensure_parent_metric-kept "output_tokens" output_children u d.output,
        limit_children-kept (quantity_of u "input_tokens") input_children u d.input,
        limit_children-kept (quantity_of u "input_audio_tokens") audio_children u d.audio,
        limit_children-kept (quantity_of u "input_image_tokens") image_children u d.image,
        limit_children-kept (quantity_of u "input_video_tokens") video_children u d.video,
      )
      (limit_children-kept (quantity_of u "output_tokens") output_children u d.output)

-- Two runs give what one gives.
pub normalize_metered_relationships_idem :
    (u : Quantities)
    → (normalize_metered_relationships (normalize_metered_relationships u)
        ≡ normalize_metered_relationships u)
normalize_metered_relationships_idem u =
    normalize_metered_relationships-IsDisjoint_kept (normalize_metered_relationships u)
      (normalize_metered_relationships-IsDisjoint u)
