-- ===== src/Clustering/Attach.antt =====
-- `SupereventCreator::attach_skymap` (src/clustering.rs).
use boom_gw.Base.{
  ℕ, suc, ◌≡◌, refl, ◌∙◌, ap, subst, ◌⊎◌, inl, inr, true, [], ◌∷◌, Option, none, some, arith,
  Bool-cases, Bytes, bytes_eq, bytes_eq_refl, eq_of_bytes_eq,
}
use boom_gw.Base.Floats.{Float, FloatLaws}
use boom_gw.Base.BTree.{BTreeMap, get, modify}
use boom_gw.Base.BTree.Laws.{All-get, map_values, Ordering-cases, get-hit}
use boom_gw.Clustering.Defs.{
  Superevent, SupereventCreator, skymap_attached, time_cmp, attach_skymap, key_of_id,
}
use boom_gw.Clustering.Neighbours.{Ascending, get_above}
use boom_gw.Clustering.Invariant.{WellFormed, IsBest, changed_in_place}

module _ {F C : Type 0} where
  -- Some open superevent has the identifier.
  abbrev pub HasId : Bytes → BTreeMap F (Superevent F C) → Type 0
  HasId id [] = ⊥
  HasId id ((k, s) ∷ m) = (s.id ≡ id) ⊎ HasId id m

  -- The superevent with the map attached.
  abbrev pub with_skymap : Superevent F C → Bytes → ℕ → Superevent F C
  with_skymap s fits elapsed = record s {
    skymap = some (record { bytes = fits; elapsed_ms = elapsed });
  }

  key_of_id-none :
      (id : Bytes) (m : BTreeMap F (Superevent F C))
      → key_of_id id (map_values (λ s. s.id) m) ≡ none
      → ¬ HasId id m
  unfolding key_of_id
  key_of_id-none id [] h p = p
  key_of_id-none id ((k, s) ∷ m) h (inl e) =
      let same : bytes_eq s.id id ≡ true =
        subst (λ x. bytes_eq s.id x ≡ true) e (bytes_eq_refl s.id) in
      ground arith
  key_of_id-none id ((k, s) ∷ m) h (inr p) = key_of_id-none id m (ground arith) p

module _ {F C : Type 0} ⦃fl : Float F⦄ (L : FloatLaws fl) where
  open L use {rank, cmp_rank}

  -- The key that the index has for an identifier leads to the superevent of that identifier.
  key_of_id-get :
      (id : Bytes) (t : F) (lo : ℕ) (m : BTreeMap F (Superevent F C))
      → Ascending L lo m
      → key_of_id id (map_values (λ s. s.id) m) ≡ some t
      → (s : Superevent F C) × (get time_cmp t m ≡ some s) × (s.id ≡ id)
  unfolding key_of_id get
  key_of_id-get id t lo [] a h = cc
  key_of_id-get id t lo ((k, s) ∷ m) a h = elim (Bool-cases (bytes_eq s.id id)) [
    | inl e ↦
        let here : k ≡ t = ground arith in
        (s, ground (arith, cmp_rank t k), eq_of_bytes_eq s.id id e)
    | inr e ↦
        let (x, p, q) = key_of_id-get id t (suc (rank k)) m a.1 (ground arith) in
        (x, ground (arith, cmp_rank t k, get_above L t (suc (rank k)) m a.1), q)
  ]

  HasId-get :
      (id : Bytes) (t : F) (s : Superevent F C) (m : BTreeMap F (Superevent F C))
      → get time_cmp t m ≡ some s
      → s.id ≡ id
      → HasId id m
  unfolding get
  HasId-get id t s [] h e = cc
  HasId-get id t s ((k, x) ∷ m) h e = elim (Ordering-cases (time_cmp t k)) [
    | inl o ↦ inr (HasId-get id t s m (ground arith) e)
    | inr (inl o) ↦ inl (ap (λ y. y.id) (get-hit time_cmp t k x s m o h) ∙ e)
    | inr (inr o) ↦ inr (HasId-get id t s m (ground arith) e)
  ]

  -- What `attach_skymap` does for an identifier that is open.
  abbrev pub Attached : SupereventCreator F C → Bytes → Bytes → ℕ → Type 0
  Attached c id fits elapsed =
      (t : F) × (s : Superevent F C) × (get time_cmp t c.superevents ≡ some s)
      × (s.id ≡ id)
      × (attach_skymap c id fits elapsed ≡ (
        record c {
          superevents = modify time_cmp t (λ _. with_skymap s fits elapsed) c.superevents;
        },
        some (skymap_attached (with_skymap s fits elapsed)),
      ))

  attach_cases :
      (c : SupereventCreator F C) (id fits : Bytes) (elapsed : ℕ) (key : Option F)
      → WellFormed L c
      → key_of_id id c.times ≡ key
      → (HasId id c.superevents × Attached c id fits elapsed)
        ⊎ ((¬ HasId id c.superevents) × (attach_skymap c id fits elapsed ≡ (c, none)))
  unfolding attach_skymap
  attach_cases c id fits elapsed none w h = inr (
    key_of_id-none id c.superevents (subst (λ m. key_of_id id m ≡ none) w.index h),
    rw (h, attach_skymap),
  )
  attach_cases c id fits elapsed (some t) w h =
      let (s, g, e) =
        key_of_id-get id t 0 c.superevents w.ascending
          (subst (λ m. key_of_id id m ≡ some t) w.index h) in
      inl (
        HasId-get id t s c.superevents g e,
        (t, s, g, e, rw (h, attach_skymap) (rw (g, attach_skymap))),
      )

  -- For floats that meet FloatLaws: from a well-formed creator, either an open superevent has the
  -- identifier, and then the sky map is stored in it and the update carries it, or none has it,
  -- and then `attach_skymap` returns the creator unchanged and no update.
  pub attach_skymap-HasId :
      (c : SupereventCreator F C) (id fits : Bytes) (elapsed : ℕ)
      → WellFormed L c
      → (HasId id c.superevents × Attached c id fits elapsed)
        ⊎ ((¬ HasId id c.superevents) × (attach_skymap c id fits elapsed ≡ (c, none)))
  attach_skymap-HasId c id fits elapsed w =
      attach_cases c id fits elapsed (key_of_id id c.times) w refl

  pub attach_skymap-WellFormed :
      (c : SupereventCreator F C) (id fits : Bytes) (elapsed : ℕ)
      → WellFormed L c
      → WellFormed L (attach_skymap c id fits elapsed).0
  attach_skymap-WellFormed c id fits elapsed w = elim (attach_skymap-HasId c id fits elapsed w) [
    | inl (p, (t, s, g, e, q)) ↦
        let (k, best) = All-get time_cmp (λ e. IsBest L e.1) t s c.superevents g w.best in
        rw q (changed_in_place L c t s (with_skymap s fits elapsed) w g refl refl refl refl best)
    | inr (p, q) ↦ rw q w
  ]

  pub next_seq-attach_skymap :
      (c : SupereventCreator F C) (id fits : Bytes) (elapsed : ℕ)
      → WellFormed L c
      → (attach_skymap c id fits elapsed).0.next_seq ≡ c.next_seq
  next_seq-attach_skymap c id fits elapsed w = elim (attach_skymap-HasId c id fits elapsed w) [
    | inl (p, (t, s, g, e, q)) ↦ rw q
    | inr (p, q) ↦ rw q
  ]
