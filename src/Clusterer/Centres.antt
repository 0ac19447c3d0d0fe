-- ===== src/Clusterer/Centres.antt =====
-- What the archive says of a superevent after an update (src/bin/gw_clusterer.rs with
-- src/archive.rs).
use boom_gw.Base.{
  [], ◌∷◌, ◌⊎◌, inl, inr, map, length, subst, sym, some_inj, Option-cases, Bool-cases, bytes_eq,
  eq_of_bytes_eq, All, ◌≡◌, refl, ◌∙◌, ap, true, false, List, Option, none, some, if◌then◌else◌,
  Bytes,
}
use boom_gw.Base.Floats.{Float}
use boom_gw.Base.BTree.{values}
use boom_gw.Clustering.Invariant.{Occurs}
use boom_gw.Base.HashMap.{HashMap, lookup, lookup-put, lookup-put_other}
use boom_gw.Clustering.Defs.{
  SkyMapFits, Superevent, SupereventCreator, SupereventUpdate, created, preferred_updated, skipped,
  skymap_attached,
}
use boom_gw.Clusterer.World.{Setup, Outside, World, upsert_superevent, perform}
use boom_gw.Clusterer.Archiving.{find_id, archive_superevent_from, after_upsert, superevent_of}
use boom_gw.Clusterer.Documents.{
  SkymapSummary, summary_of, SupereventDoc, from_superevent, written, stored,
}

module _ {F C : Type 0} ⦃fl : Float F⦄ (setup : Setup F) (out : Outside F C) where
  -- An update that an event causes.
  abbrev pub IsOfEvent : SupereventUpdate F C → Type 0
  IsOfEvent (skymap_attached s) = ⊥
  IsOfEvent _ = Unit

  stored-upsert :
      (s : Superevent F C) (w : World F C)
      → out.fails w.turn ≡ false
      → lookup s.id (stored (perform out (upsert_superevent s) w).trace) ≡ some (from_superevent s)
  unfolding stored written
  stored-upsert s w h = rw h (lookup-put s.id (from_superevent s) (stored w.trace))

  after_upsert-IsOfEvent :
      (update : SupereventUpdate F C) (s : Superevent F C) (w : World F C)
      → IsOfEvent update
      → after_upsert setup out update s w ≡ w
  unfolding after_upsert
  after_upsert-IsOfEvent (created _) s w h = refl
  after_upsert-IsOfEvent (preferred_updated _ _) s w h = refl
  after_upsert-IsOfEvent (skipped _ _ _) s w h = refl
  after_upsert-IsOfEvent (skymap_attached _) s w h = absurd h

  archived_once :
      (c : SupereventCreator F C) (update : SupereventUpdate F C) (s : Superevent F C)
      (w : World F C)
      → setup.archive ≡ true
      → IsOfEvent update
      → superevent_of c update ≡ some s
      → archive_superevent_from setup out c update w ≡ perform out (upsert_superevent s) w
  unfolding archive_superevent_from
  archived_once c update s w a e o =
      let saved = perform out (upsert_superevent s) w in
      let opened : archive_superevent_from setup out c update w
          ≡ (if setup.archive then after_upsert setup out update s saved else w) =
        rw (o, archive_superevent_from) refl in
      opened
      ∙ ap (λ b. if b then after_upsert setup out update s saved else w) a
      ∙ after_upsert-IsOfEvent update s saved e

  -- The summary of a sky map, without a centre.
  abbrev pub Summarizes : Option SkyMapFits → Option (SkymapSummary F) → Type 0
  Summarizes none summary = summary ≡ none
  Summarizes (some sky) summary =
      (m : SkymapSummary F) × (summary ≡ some m)
      × (m.bytes_size ≡ length sky.bytes)
      × (m.elapsed_ms ≡ sky.elapsed_ms)
      × (m.center_ra ≡ none)
      × (m.center_dec ≡ none)

  pub record Describes (s : Superevent F C) (d : SupereventDoc F) : Type 0 where
    pub id : d.id ≡ s.id
    pub t_0 : d.t_0 ≡ s.t_0
    pub t_start : d.t_start ≡ s.t_start
    pub t_end : d.t_end ≡ s.t_end
    pub graceid : d.preferred_graceid ≡ s.preferred_event.graceid
    pub snr : d.preferred_snr ≡ s.preferred_event.snr
    pub graceids : d.g_event_graceids ≡ map (λ e. e.graceid) s.g_events
    pub summary : Summarizes s.skymap d.skymap_summary

  -- The superevent that an update of an event concerns.
  abbrev pub Concerns : SupereventCreator F C → SupereventUpdate F C → Superevent F C → Type 0
  Concerns c (created s) t = t ≡ s
  Concerns c (preferred_updated s _) t = t ≡ s
  Concerns c (skipped id _ _) t = Occurs t (values c.superevents) × (t.id ≡ id)
  Concerns c (skymap_attached s) t = ⊥

  -- The update skips an event of a superevent that is not open.
  abbrev pub IsUnknown : SupereventCreator F C → SupereventUpdate F C → Type 0
  IsUnknown c (skipped id _ _) = All (λ t. bytes_eq t.id id ≡ false) (values c.superevents)
  IsUnknown c _ = ⊥

  -- From one world to another the document of the superevent that the update concerns is
  -- replaced, if it concerns one, and any other is as before.
  pub data Archives (other : Bytes) (c : SupereventCreator F C) (update : SupereventUpdate F C)
      (w w' : World F C) : Type 0 where
    unknown : IsUnknown c update → stored w'.trace ≡ stored w.trace → Archives other c update w w'
    replaced :
        (s : Superevent F C) (d : SupereventDoc F)
        → Concerns c update s
        → lookup s.id (stored w'.trace) ≡ some d
        → Describes s d
        → (s.id ≡ other) ⊎ (lookup other (stored w'.trace) ≡ lookup other (stored w.trace))
        → Archives other c update w w'

  summary_of-Summarizes : (o : Option SkyMapFits) → Summarizes o (summary_of o)
  summary_of-Summarizes none = refl
  summary_of-Summarizes (some sky) = (_, refl, refl, refl, refl, refl)

  from_superevent-Describes : (s : Superevent F C) → Describes s (from_superevent s)
  unfolding from_superevent
  from_superevent-Describes s = record {
    id = refl;
    t_0 = refl;
    t_start = refl;
    t_end = refl;
    graceid = refl;
    snr = refl;
    graceids = refl;
    summary = summary_of-Summarizes s.skymap;
  }

  stored_frame :
      (other : Bytes) (s : Superevent F C) (w : World F C)
      → out.fails w.turn ≡ false
      → (s.id ≡ other)
        ⊎ (lookup other (stored (perform out (upsert_superevent s) w).trace)
            ≡ lookup other (stored w.trace))
  unfolding stored written
  stored_frame other s w h = elim (Bool-cases (bytes_eq s.id other)) [
    | inl e ↦ inl (eq_of_bytes_eq s.id other e)
    | inr n ↦ inr (rw h (lookup-put_other other s.id (from_superevent s) (stored w.trace) n))
  ]

  archived-Archives :
      (other : Bytes) (c : SupereventCreator F C) (update : SupereventUpdate F C)
      (s : Superevent F C) (w : World F C)
      → setup.archive ≡ true
      → IsOfEvent update
      → out.fails w.turn ≡ false
      → superevent_of c update ≡ some s
      → Concerns c update s
      → Archives other c update w (archive_superevent_from setup out c update w)
  archived-Archives other c update s w a e f o k =
      subst (Archives other c update w) (sym (archived_once c update s w a e o)) (
        replaced s (from_superevent s) k (stored-upsert s w f) (from_superevent-Describes s)
          (stored_frame other s w f))

  find_id-some :
      (id : Bytes) (ss : List (Superevent F C)) (s : Superevent F C)
      → find_id id ss ≡ some s
      → Occurs s ss × (s.id ≡ id)
  unfolding find_id
  find_id-some id [] s h = absurd (cc h)
  find_id-some id (t ∷ ss) s h = elim (Bool-cases (bytes_eq t.id id)) [
    | inl e ↦
        let same : t ≡ s = some_inj t s (rw (e) at h) in
        (inl (sym same), ap (λ (x : Superevent F C). x.id) (sym same) ∙ eq_of_bytes_eq t.id id e)
    | inr n ↦ let r = find_id-some id ss s (rw (n) at h) in (inr r.0, r.1)
  ]

  find_id-none :
      (id : Bytes) (ss : List (Superevent F C))
      → find_id id ss ≡ none
      → All (λ t. bytes_eq t.id id ≡ false) ss
  unfolding find_id
  find_id-none id [] h = tt
  find_id-none id (t ∷ ss) h = elim (Bool-cases (bytes_eq t.id id)) [
    | inl e ↦ absurd (cc (rw (e) at h))
    | inr n ↦ (n, find_id-none id ss (rw (n) at h))
  ]

  -- If an update is not an attached sky map, the archive is connected, and the write does not
  -- fail, then either the update skips an event of a superevent that is not open, and no document
  -- changes; or the archive holds a document for the superevent that the update carries or whose
  -- identifier it names, which has the data of this superevent and, if it has a sky map, the size
  -- and time of the map but no centre, whatever was stored before; and the document of any other
  -- identifier is as before.
  pub archive_superevent_from-Archives :
      (other : Bytes) (c : SupereventCreator F C) (update : SupereventUpdate F C) (w : World F C)
      → setup.archive ≡ true
      → IsOfEvent update
      → out.fails w.turn ≡ false
      → Archives other c update w (archive_superevent_from setup out c update w)
  unfolding superevent_of archive_superevent_from
  archive_superevent_from-Archives other c (skymap_attached s) w a e f = absurd e
  archive_superevent_from-Archives other c (created s) w a e f =
      archived-Archives other c (created s) s w a e f refl refl
  archive_superevent_from-Archives other c (preferred_updated s g) w a e f =
      archived-Archives other c (preferred_updated s g) s w a e f refl refl
  archive_superevent_from-Archives other c (skipped id g r) w a e f =
      elim (Option-cases (find_id id (values c.superevents))) [
        | inl n ↦
            unknown (find_id-none id (values c.superevents) n)
              (rw (n, archive_superevent_from) refl)
        | inr (s, o) ↦
            archived-Archives other c (skipped id g r) s w a e f o
              (find_id-some id (values c.superevents) s o)
      ]
