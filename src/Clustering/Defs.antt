-- ===== src/Clustering/Defs.antt =====
-- src/clustering.rs: the events, the superevents, and `SupereventCreator` with its operations.
-- Times, SNRs and rates are `f64` (Base/Floats); texts are their bytes; `C` is the event type of
-- the LIGO-LW library, of which an event carries one value.
use boom_gw.Base.{
  ℕ, ◌+◌, ◌%◌, ◌^◌, List, [], ◌∷◌, ◌++◌, Option, none, some, Ordering, if◌then◌else◌, Bytes,
  bytes_eq,
}
use boom_gw.Base.Floats.{Float, ◌+F◌, ◌-F◌, ◌/F◌, lt_f, le_f, cmp_f}
use boom_gw.Base.BTree
use boom_gw.Base.BTree.{BTreeMap, values, get, modify, last_below, first_from, remove}
use boom_gw.Clustering.Ids.{format_id}

pub record SkyMapFits : Type 0 where
  pub bytes : Bytes
  pub elapsed_ms : ℕ

-- src/event.rs
pub record GwEvent (F C : Type 0) : Type 0 where
  pub pipeline : Bytes
  pub graceid : Bytes
  pub producer_timestamp : F
  pub message_type : Bytes
  pub submitter : Bytes
  pub end_time : F
  pub ifos : Bytes
  pub snr : F
  pub far : F
  pub mchirp : Option F
  pub total_mass : Option F
  pub coinc : C

pub record Superevent (F C : Type 0) : Type 0 where
  pub id : Bytes
  pub t_0 : F
  pub t_start : F
  pub t_end : F
  pub preferred_event : GwEvent F C
  pub g_events : List (GwEvent F C)
  pub skymap : Option SkyMapFits

pub data SkipReason : Type 0 where
  lower_snr : SkipReason

pub data SupereventUpdate (F C : Type 0) : Type 0 where
  created : Superevent F C → SupereventUpdate F C
  preferred_updated : Superevent F C → Bytes → SupereventUpdate F C
  skipped : Bytes → GwEvent F C → SkipReason → SupereventUpdate F C
  skymap_attached : Superevent F C → SupereventUpdate F C

pub record SupereventCreator (F C : Type 0) : Type 0 where
  pub window_duration : F
  pub superevents : BTreeMap F (Superevent F C)
  pub times : BTreeMap F Bytes
  pub next_seq : ℕ

-- `Iterator::min_by`: the first of several minima.
unfoldable pub least {ℓ} : {A : Type ℓ} → (A → A → Ordering) → A → List A → A
least cmp acc [] = acc
least cmp acc (y ∷ ys) = least cmp (elim (cmp acc y) [ Ordering.gt ↦ y | _ ↦ acc ]) ys

unfoldable pub min_by {ℓ} : {A : Type ℓ} → (A → A → Ordering) → List A → Option A
unfolding least
min_by cmp [] = none
min_by cmp (x ∷ xs) = some (least cmp x xs)

-- `opt.into_iter()`
abbrev pub to_list {ℓ} : {A : Type ℓ} → Option A → List A
to_list none = []
to_list (some a) = a ∷ []

module _ {F : Type 0} ⦃fl : Float F⦄ where
  -- `impl Ord for OrderedTime`
  abbrev pub time_cmp : F → F → Ordering
  time_cmp a b = cmp_f a b

  -- `window_duration / 2.0`
  abbrev pub half_of : F → F
  half_of w = w /F fl.decimal 2 0

  -- The candidates among the two neighbours: those no further than half a window.
  unfoldable pub within_half : F → F → List F → List F
  within_half half gpstime [] = []
  within_half half gpstime (t ∷ ts) =
      let rest = within_half half gpstime ts in
      if le_f (fl.abs (gpstime -F t)) half then t ∷ rest else rest

  abbrev pub key_of : {V : Type 0} → Option (F × V) → Option F
  key_of none = none
  key_of (some e) = some e.0

  unfoldable pub closest : {V : Type 0} → F → F → BTreeMap F V → Option F
  unfolding within_half min_by last_below first_from
  closest window gpstime [] = none
  closest window gpstime (e ∷ es) =
      let before = key_of (last_below time_cmp gpstime (e ∷ es)) in
      let after = key_of (first_from time_cmp gpstime (e ∷ es)) in
      min_by (λ a b. cmp_f (fl.abs (gpstime -F a)) (fl.abs (gpstime -F b)))
        (within_half (half_of window) gpstime (to_list before ++ to_list after))

-- `self.times.iter().find(|(_, id)| id == superevent_id)`
unfoldable pub key_of_id : {F : Type 0} → Bytes → BTreeMap F Bytes → Option F
key_of_id superevent_id [] = none
key_of_id superevent_id ((k, id) ∷ m) =
    if bytes_eq id superevent_id then some k else key_of_id superevent_id m

module _ {F C : Type 0} ⦃fl : Float F⦄ where
  unfoldable pub new : F → SupereventCreator F C
  new window_duration = record {
    window_duration = window_duration;
    superevents = [];
    times = [];
    next_seq = 0;
  }

  -- The default window is 5.0 seconds.
  unfoldable pub with_default_window : SupereventCreator F C
  unfolding new
  with_default_window = new (fl.decimal 5 0)

  unfoldable pub restore : List (Superevent F C) → SupereventCreator F C → SupereventCreator F C
  unfolding BTree.insert
  restore [] creator = creator
  restore (s ∷ ss) creator = restore ss (record creator {
    superevents = BTree.insert time_cmp s.t_0 s creator.superevents;
    times = BTree.insert time_cmp s.t_0 s.id creator.times;
  })

  unfoldable pub from_persisted : F → List (Superevent F C) → ℕ → SupereventCreator F C
  unfolding new restore
  from_persisted window_duration superevents next_seq =
      record (restore superevents (new window_duration)) { next_seq = next_seq }

  unfoldable pub find_closest_t0 : SupereventCreator F C → F → Option F
  unfolding closest
  find_closest_t0 c gpstime = closest c.window_duration gpstime c.times

  -- `next_seq` is a `u64`.
  unfoldable pub allocate_id : SupereventCreator F C → Bytes × SupereventCreator F C
  allocate_id c = (format_id c.next_seq, record c { next_seq = (c.next_seq + 1) % 2 ^ 64 })

  -- The event is recorded; it is promoted if its SNR is higher.
  unfoldable pub absorb : Superevent F C → GwEvent F C → Superevent F C × SupereventUpdate F C
  absorb s event =
      if lt_f s.preferred_event.snr event.snr
      then (let s' = record s { preferred_event = event; g_events = s.g_events ++ event ∷ [] } in
          (s', preferred_updated s' s.preferred_event.graceid))
      else (record s { g_events = s.g_events ++ event ∷ [] }, skipped s.id event lower_snr)

  unfoldable pub open_window :
      SupereventCreator F C → GwEvent F C → SupereventCreator F C × SupereventUpdate F C
  unfolding allocate_id BTree.insert
  open_window c event =
      let half = half_of c.window_duration in
      let (id, c') = allocate_id c in
      let t_0 = event.end_time in
      let superevent : Superevent F C = record {
        id = id;
        t_0 = t_0;
        t_start = t_0 -F half;
        t_end = t_0 +F half;
        preferred_event = event;
        g_events = event ∷ [];
        skymap = none;
      } in
      (
        record c' {
          times = BTree.insert time_cmp t_0 id c'.times;
          superevents = BTree.insert time_cmp t_0 superevent c'.superevents;
        },
        created superevent,
      )

  -- `none` is the panic of `expect`: the index named a superevent that the map lacks.
  unfoldable pub process :
      SupereventCreator F C → GwEvent F C → Option (SupereventCreator F C × SupereventUpdate F C)
  unfolding find_closest_t0 absorb open_window get modify
  process c event = elim (find_closest_t0 c event.end_time) [
    | some existing_t0 ↦ elim (get time_cmp existing_t0 c.superevents) [
      | none ↦ none
      | some superevent ↦
          let (s', update) = absorb superevent event in
          some
            (record c { superevents = modify time_cmp existing_t0 (λ _. s') c.superevents }, update)
    ]
    | none ↦ some (open_window c event)
  ]

  -- The keys of the superevents whose window ends before the cutoff.
  unfoldable pub stale_keys : F → BTreeMap F (Superevent F C) → List F
  stale_keys cutoff_time [] = []
  stale_keys cutoff_time ((k, v) ∷ m) =
      let rest = stale_keys cutoff_time m in if lt_f v.t_end cutoff_time then k ∷ rest else rest

  unfoldable pub remove_keys :
      List F → SupereventCreator F C → SupereventCreator F C × List (Superevent F C)
  unfolding remove get
  remove_keys [] c = (c, [])
  remove_keys (k ∷ ks) c =
      let dropped = to_list (get time_cmp k c.superevents) in
      let (c', removed) = remove_keys ks (record c {
        times = remove time_cmp k c.times;
        superevents = remove time_cmp k c.superevents;
      }) in
      (c', dropped ++ removed)

  unfoldable pub cleanup_before :
      SupereventCreator F C → F → SupereventCreator F C × List (Superevent F C)
  unfolding stale_keys remove_keys
  cleanup_before c cutoff_time = remove_keys (stale_keys cutoff_time c.superevents) c

  unfoldable pub attach_skymap :
      SupereventCreator F C
      → Bytes
      → Bytes
      → ℕ
      → SupereventCreator F C × Option (SupereventUpdate F C)
  unfolding key_of_id get modify
  attach_skymap c superevent_id fits_bytes elapsed_ms = elim (key_of_id superevent_id c.times) [
    | none ↦ (c, none)
    | some key ↦ elim (get time_cmp key c.superevents) [
      | none ↦ (c, none)
      | some superevent ↦
          let s' = record superevent {
            skymap = some (record { bytes = fits_bytes; elapsed_ms = elapsed_ms });
          } in
          (
            record c { superevents = modify time_cmp key (λ _. s') c.superevents },
            some (skymap_attached s'),
          )
    ]
  ]
