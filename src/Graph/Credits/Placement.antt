-- ===== src/Graph/Credits/Placement.antt =====
-- The walk over a tracklist against a description by index: `enumerate(…, start=1)` over the tracks,
-- and over the sub-tracks of each.
use discogs_sql_loader.Prelude.{
  ℕ, zero, suc, ◌+◌, ◌≡◌, refl, ◌∙◌, ap, sym, ◌↔◌, ◌⊎◌, inl, inr, List, [], ◌∷◌, ◌++◌, some, arith,
}
use mathlib.Core.Path.{subst}
use discogs_sql_loader.Prelude.Members.{
  In, get_elem?, In-append, In-append_left, In-append_right, In-map, In-map_of,
}
use discogs_sql_loader.Text.{Text}
use discogs_sql_loader.Json.{Json, obj, Fields}
use discogs_sql_loader.Common.{Common}
use discogs_sql_loader.Graph.Ids.{xmltodict_array}
use discogs_sql_loader.Graph.Credits.{
  Credit, Placed, credits_on, performers_on, track_credits, track_performers, track_position, place,
  walk_subs, sub_tracks, walk_tracks,
}

module _ {A : Type 0} (read : Fields → List A) where
  -- `p` was read on `fs`, which stands at (`track`, `sub`)
  pub record ReadAt (track sub : ℕ) (fs : Fields) (p : Placed A) : Type 0 where
    pub on_track : p.track ≡ track
    pub on_sub : p.sub ≡ sub
    pub labelled : p.position ≡ track_position fs
    pub found : In p.item (read fs)

  -- the track's own entries, or those of the sub-track that stands at an index
  pub data OnTrack (track : ℕ) (fs : Fields) (p : Placed A) : Type 0 where
    own : ReadAt track 0 fs p → OnTrack track fs p
    below :
        (j : ℕ) (sub : Fields)
        → get_elem? (sub_tracks read fs) j ≡ some (obj sub)
        → ReadAt track (suc j) sub p
        → OnTrack track fs p

  pub data OnTracklist (tracks : List Json) (p : Placed A) : Type 0 where
    at :
        (i : ℕ) (fs : Fields)
        → get_elem? tracks i ≡ some (obj fs)
        → OnTrack (suc i) fs p
        → OnTracklist tracks p

  abbrev placed_at : ℕ → ℕ → Fields → A → Placed A
  placed_at track sub fs a = record {
    track = track;
    sub = sub;
    position = track_position fs;
    item = a;
  }

  In-place :
      (track sub : ℕ) (fs : Fields) (p : Placed A)
      → In p (place read track sub fs)
      → ReadAt track sub fs p
  In-place track sub fs p h =
      let (a, k, e) = In-map (placed_at track sub fs) p (read fs) h in
      record {
        on_track = ap (λ q. q.track) e;
        on_sub = ap (λ q. q.sub) e;
        labelled = ap (λ q. q.position) e;
        found = subst (λ b. In b (read fs)) (sym (ap (λ q. q.item) e)) k;
      }

  In-place_of :
      (track sub : ℕ) (fs : Fields) (p : Placed A)
      → ReadAt track sub fs p
      → In p (place read track sub fs)
  In-place_of track sub fs p r =
      subst (λ q. In q (place read track sub fs))
        (sym (λ i. record {
          track = r.on_track i;
          sub = r.on_sub i;
          position = r.labelled i;
          item = p.item;
        }))
        (In-map_of (placed_at track sub fs) p.item (read fs) r.found)

  moved :
      (track : ℕ) {i j : ℕ} {fs : Fields} {p : Placed A}
      → i ≡ j
      → ReadAt track i fs p
      → ReadAt track j fs p
  moved track e r = record {
    on_track = r.on_track;
    on_sub = r.on_sub ∙ e;
    labelled = r.labelled;
    found = r.found;
  }

  subs_sound :
      (track n : ℕ) (subs : List Json) (p : Placed A)
      → In p (walk_subs read track n subs)
      → (j : ℕ) × (sub : Fields) × (get_elem? subs j ≡ some (obj sub)) × ReadAt track (n + j) sub p
  unfolding walk_subs
  subs_sound track n [] p h = absurd h
  subs_sound track n (obj fs ∷ subs) p h =
      elim (In-append p (place read track n fs) (walk_subs read track (suc n) subs) h) [
        | inl k ↦ (0, fs, refl, moved track (omega arith) (In-place track n fs p k))
        | inr k ↦
            let (j, sub, e, r) = subs_sound track (suc n) subs p k in
            (suc j, sub, e, moved track (omega arith) r)
      ]
  subs_sound track n (_ ∷ subs) p h =
      let (j, sub, e, r) = subs_sound track (suc n) subs p h in
      (suc j, sub, e, moved track (omega arith) r)

  subs_complete :
      (track n : ℕ) (subs : List Json) (p : Placed A) (j : ℕ) (sub : Fields)
      → get_elem? subs j ≡ some (obj sub)
      → ReadAt track (n + j) sub p
      → In p (walk_subs read track n subs)
  unfolding walk_subs
  subs_complete track n [] p j sub e r = cc
  subs_complete track n (obj fs ∷ subs) p zero sub e r =
      let same_fields : sub ≡ fs = cc in
      In-append_left p (place read track n fs) _ (
        In-place_of track n fs p
          (subst (λ q. ReadAt track n q p) same_fields (moved track (omega arith) r)))
  subs_complete track n (_ ∷ subs) p zero sub e r = cc
  subs_complete track n (obj fs ∷ subs) p (suc j) sub e r =
      In-append_right p (place read track n fs) _
        (subs_complete track (suc n) subs p j sub e (moved track (omega arith) r))
  subs_complete track n (_ ∷ subs) p (suc j) sub e r =
      subs_complete track (suc n) subs p j sub e (moved track (omega arith) r)

  renumbered : {i j : ℕ} {fs : Fields} {p : Placed A} → i ≡ j → OnTrack i fs p → OnTrack j fs p
  renumbered {fs = fs} {p = p} e o = subst (λ k. OnTrack k fs p) e o

  In-first :
      (n : ℕ) (fs : Fields) (tracks : List Json) (p : Placed A)
      → In p (place read n 0 fs ++ walk_subs read n 1 (sub_tracks read fs))
      → In p (
          place read n 0 fs
          ++ (walk_subs read n 1 (sub_tracks read fs) ++ walk_tracks read (suc n) tracks))
  In-first n fs tracks p h = elim (In-append p (place read n 0 fs) _ h) [
    | inl k ↦ In-append_left p (place read n 0 fs) _ k
    | inr k ↦ In-append_right p (place read n 0 fs) _ (In-append_left p _ _ k)
  ]

  track_sound :
      (n : ℕ) (fs : Fields) (p : Placed A)
      → In p (place read n 0 fs) ⊎ In p (walk_subs read n 1 (sub_tracks read fs))
      → OnTrack n fs p
  track_sound n fs p (inl h) = own (In-place n 0 fs p h)
  track_sound n fs p (inr h) =
      let (j, sub, e, r) = subs_sound n 1 (sub_tracks read fs) p h in
      below j sub e (moved n (omega arith) r)

  track_complete :
      (n : ℕ) (fs : Fields) (p : Placed A)
      → OnTrack n fs p
      → In p (place read n 0 fs ++ walk_subs read n 1 (sub_tracks read fs))
  track_complete n fs p (own r) = In-append_left p (place read n 0 fs) _ (In-place_of n 0 fs p r)
  track_complete n fs p (below j sub e r) =
      In-append_right p (place read n 0 fs) _
        (subs_complete n 1 (sub_tracks read fs) p j sub e (moved n (omega arith) r))

  tracks_sound :
      (n : ℕ) (tracks : List Json) (p : Placed A)
      → In p (walk_tracks read n tracks)
      → (i : ℕ) × (fs : Fields) × (get_elem? tracks i ≡ some (obj fs)) × OnTrack (n + i) fs p
  unfolding walk_tracks
  tracks_sound n [] p h = absurd h
  tracks_sound n (obj fs ∷ tracks) p h = elim (In-append p (place read n 0 fs) _ h) [
    | inl k ↦ (0, fs, refl, renumbered (omega arith) (track_sound n fs p (inl k)))
    | inr k ↦ elim (In-append p (walk_subs read n 1 (sub_tracks read fs)) _ k) [
      | inl q ↦ (0, fs, refl, renumbered (omega arith) (track_sound n fs p (inr q)))
      | inr q ↦
          let (i, gs, e, o) = tracks_sound (suc n) tracks p q in
          (suc i, gs, e, renumbered (omega arith) o)
    ]
  ]
  tracks_sound n (_ ∷ tracks) p h =
      let (i, gs, e, o) = tracks_sound (suc n) tracks p h in
      (suc i, gs, e, renumbered (omega arith) o)

  tracks_complete :
      (n : ℕ) (tracks : List Json) (p : Placed A) (i : ℕ) (fs : Fields)
      → get_elem? tracks i ≡ some (obj fs)
      → OnTrack (n + i) fs p
      → In p (walk_tracks read n tracks)
  unfolding walk_tracks
  tracks_complete n [] p i fs e o = cc
  tracks_complete n (obj gs ∷ tracks) p zero fs e o =
      let same_fields : fs ≡ gs = cc in
      In-first n gs tracks p (
        track_complete n gs p (subst (λ q. OnTrack n q p) same_fields (renumbered (omega arith) o)))
  tracks_complete n (_ ∷ tracks) p zero fs e o = cc
  tracks_complete n (obj gs ∷ tracks) p (suc i) fs e o = In-append_right p (place read n 0 gs) _ (
      In-append_right p (walk_subs read n 1 (sub_tracks read gs)) _
        (tracks_complete (suc n) tracks p i fs e (renumbered (omega arith) o)))
  tracks_complete n (_ ∷ tracks) p (suc i) fs e o =
      tracks_complete (suc n) tracks p i fs e (renumbered (omega arith) o)

  -- What the walk yields was read on the track that stands at its 1-based number, as the track's own
  -- (sub-track number 0) or on the sub-track that stands at its 1-based number, under its label.
  pub walk_tracks_sound :
      (tracks : List Json) (p : Placed A) → In p (walk_tracks read 1 tracks) → OnTracklist tracks p
  walk_tracks_sound tracks p h =
      let (i, fs, e, o) = tracks_sound 1 tracks p h in at i fs e (renumbered (omega arith) o)

  -- And all that can be read so is yielded.
  pub walk_tracks_complete :
      (tracks : List Json) (p : Placed A) → OnTracklist tracks p → In p (walk_tracks read 1 tracks)
  walk_tracks_complete tracks p (at i fs e o) =
      tracks_complete 1 tracks p i fs e (renumbered (omega arith) o)

-- `track_credits` yields exactly the usable credits of the tracks and of their sub-tracks, each with
-- the 1-based numbers of the place that it stands at, and with the label of that track.
pub track_credits-placed :
    (common : Common) (tracklist : Json) (p : Placed Credit)
    → In p (track_credits common tracklist)
      ↔ OnTracklist (credits_on common) (xmltodict_array tracklist "track") p
unfolding track_credits
track_credits-placed common tracklist p =
    (walk_tracks_sound (credits_on common) _ p, walk_tracks_complete (credits_on common) _ p)

-- `track_performers` yields exactly the usable ids of the performers of the tracks and of their
-- sub-tracks, with the same numbers and labels.
pub track_performers-placed :
    (tracklist : Json) (p : Placed Text)
    → In p (track_performers tracklist)
      ↔ OnTracklist performers_on (xmltodict_array tracklist "track") p
unfolding track_performers
track_performers-placed tracklist p =
    (walk_tracks_sound performers_on _ p, walk_tracks_complete performers_on _ p)
