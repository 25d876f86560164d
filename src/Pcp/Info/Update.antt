-- ===== src/Pcp/Info/Update.antt =====
-- `ChanInfo::update`: when the info of a channel is taken, and what it then is.
use peercast_yt.Prelude.{
  ℕ, ◌≡◌, ◌≢◌, ◌⊎◌, inl, inr, refl, sym, ap, ◌∙◌, Bool, true, false, List, ◌==◌, ==_iff,
  if◌then◌else◌, Bool-cases, if-elim, subst,
}
use peercast_yt.GnuId
use peercast_yt.GnuId.{GnuId}
use peercast_yt.Pcp.Info.{
  ChanInfo, TrackInfo, is_empty, is_same, update_text, update_track, strings, update_fields,
  update_bitrate, take_track, update,
}
use peercast_yt.Pcp.Info.Views.{
  Texts, track_texts, texts, Rest, rest, Towards, start, Field, field-Towards,
}
use peercast_yt.Pcp.Info.Fields.{
  track_contact, track_title, track_artist, track_album, track_genre, info_content_type,
  info_mime_type, info_stream_ext, info_desc, info_name, info_comment, info_genre, info_url,
}

update_track-Towards :
    (inf c : TrackInfo)
    → Towards track_texts (track_texts c) (track_texts inf) (track_texts inf) (update_track inf c)
unfolding update_track
update_track-Towards inf c =
    field-Towards _ _ track_texts track_genre inf _ _ _ _
      (field-Towards _ _ track_texts track_album inf _ _ _ _
        (field-Towards _ _ track_texts track_artist inf _ _ _ _
          (field-Towards _ _ track_texts track_title inf _ _ _ _
            (field-Towards _ _ track_texts track_contact inf _ _ _ _
              (start track_texts c (track_texts inf)) refl refl)
            refl refl)
          refl refl)
        refl refl)
      refl refl

update_bitrate-Towards :
    (inf c : ChanInfo)
    → Towards texts
        (texts c)
        (texts inf)
        (record (texts c) { bitrate = inf.bitrate })
        (update_bitrate inf (c, false))
update_bitrate-Towards inf c = elim (Bool-cases (c.bitrate == inf.bitrate)) [
  | inl e ↦
      let stays : texts c ≡ record (texts c) { bitrate = inf.bitrate } =
        ap (λ n. record (texts c) { bitrate = n }) ((==_iff c.bitrate inf.bitrate).0 e) in
      rw e (record { seen = stays; same = λ k. stays; told = λ k. cc })
  | inr e ↦ rw e (record {
    seen = refl;
    same = λ k. cc;
    told = λ k l.
        let both = sym e ∙ (==_iff c.bitrate inf.bitrate).1 (ap (λ (v : Texts). v.bitrate) l) in cc;
  })
]

strings-Towards :
    (inf c : ChanInfo) (p : ChanInfo × Bool)
    → Towards texts (texts c) (texts inf) (record (texts c) { bitrate = inf.bitrate }) p
    → Towards texts
        (texts c)
        (texts inf)
        (record (texts inf) { track = track_texts c.track })
        (strings inf p)
unfolding strings
strings-Towards inf c p t =
    field-Towards _ _ texts info_url inf _ _ _ _
      (field-Towards _ _ texts info_genre inf _ _ _ _
        (field-Towards _ _ texts info_comment inf _ _ _ _
          (field-Towards _ _ texts info_name inf _ _ _ _
            (field-Towards _ _ texts info_desc inf _ _ _ _
              (field-Towards _ _ texts info_stream_ext inf _ _ _ _
                (field-Towards _ _ texts info_mime_type inf _ _ _ _
                  (field-Towards _ _ texts info_content_type inf _ _ _ _ (t) refl refl) refl refl)
                refl refl)
              refl refl)
            refl refl)
          refl refl)
        refl refl)
      refl refl

record Keeps (r : Rest) (p : ChanInfo × Bool) : Type 0 where
  kept : rest p.0 ≡ r

field-Keeps :
    (f : Field ChanInfo Texts texts)
    → ((s : List ℕ) (c : ChanInfo) → rest (f.put s c) ≡ rest c)
    → (info : ChanInfo) (r : Rest) (p : ChanInfo × Bool) → Keeps r p
    → Keeps r (update_text f.get f.put info p)
field-Keeps f h info r p k =
    if-elim (Keeps r) (is_same (f.get p.0) (f.get info)) _ _ (λ e. k)
      (λ e. record { kept = h _ p.0 ∙ k.kept })

strings-Keeps :
    (inf : ChanInfo) (r : Rest) (p : ChanInfo × Bool) → Keeps r p → Keeps r (strings inf p)
unfolding strings
strings-Keeps inf r p k =
    field-Keeps info_url (λ s c. refl) inf r _
      (field-Keeps info_genre (λ s c. refl) inf r _
        (field-Keeps info_comment (λ s c. refl) inf r _
          (field-Keeps info_name (λ s c. refl) inf r _
            (field-Keeps info_desc (λ s c. refl) inf r _
              (field-Keeps info_stream_ext (λ s c. refl) inf r _
                (field-Keeps info_mime_type (λ s c. refl) inf r _
                  (field-Keeps info_content_type (λ s c. refl) inf r _ (k))))))))

rest-update_fields : (inf c : ChanInfo) → rest (update_fields inf c).0 ≡ rest c
unfolding update_fields
rest-update_fields inf c =
    (strings-Keeps inf (rest c) (update_bitrate inf (c, false)) (
      if-elim (Keeps (rest c)) (c.bitrate == inf.bitrate) _ _ (λ e. record { kept = refl })
        (λ e. record { kept = refl }))).kept

-- The track comes last.
take_track-Towards :
    (inf c : ChanInfo) (t : TrackInfo × Bool) (p : ChanInfo × Bool)
    → Towards texts (texts c) (texts inf) (record (texts inf) { track = track_texts c.track }) p
    → Towards track_texts (track_texts c.track) (track_texts inf.track) (track_texts inf.track) t
    → Towards texts (texts c) (texts inf) (texts inf) (take_track t p)
take_track-Towards inf c (t, true) (d, b) h k = record {
  seen =
      ap (λ (v : Texts). record v { track = track_texts t }) h.seen
      ∙ ap (λ w. record (texts inf) { track = w }) k.seen;
  same = λ e. cc;
  told = λ e l. k.told refl (ap (λ (v : Texts). v.track) l);
}
take_track-Towards inf c (t, false) (d, b) h k = record {
  seen =
      ap (λ (v : Texts). record v { track = track_texts t }) h.seen
      ∙ ap (λ w. record (texts inf) { track = w }) k.seen;
  same = λ e. h.same e ∙ ap (λ w. record (texts inf) { track = w }) (k.same refl);
  told = h.told;
}

update_fields-Towards :
    (inf c : ChanInfo) → Towards texts (texts c) (texts inf) (texts inf) (update_fields inf c)
unfolding update_fields
update_fields-Towards inf c =
    let p = strings inf (update_bitrate inf (c, false)) in
    let h = strings-Towards inf c (update_bitrate inf (c, false)) (update_bitrate-Towards inf c) in
    take_track-Towards inf c (update_track inf.track (p.0).track) p h (
      subst
        (λ w.
          Towards track_texts w (track_texts inf.track) (track_texts inf.track)
            (update_track inf.track (p.0).track))
        (ap (λ (v : Texts). v.track) h.seen) (update_track-Towards inf.track (p.0).track))

-- When an info is not taken: it has no identifier, or no name, or another broadcaster's than the known one.
abbrev pub IsRefused : ChanInfo → ChanInfo → Type 0
IsRefused info c =
    (GnuId.is_set info.id ≡ false)
    ⊎ (is_empty info.name ≡ true)
    ⊎ ((GnuId.is_set c.bc_id ≡ true) × (GnuId.is_same c.bc_id info.bc_id ≡ false))

-- What a taken info leaves: its texts and bitrate, and the broadcaster's identifier if none was known;
-- the answer is whether the texts or the bitrate were others before.
pub record Taken (info c : ChanInfo) (p : ChanInfo × Bool) : Type 0 where
  pub named : (GnuId.is_set info.id ≡ true) × (is_empty info.name ≡ false)
  pub content : texts p.0 ≡ texts info
  pub other :
      rest p.0 ≡ record (rest c) { bc_id = if GnuId.is_set c.bc_id then c.bc_id else info.bc_id }
  pub same : p.1 ≡ false → texts c ≡ texts info
  pub changed : p.1 ≡ true → texts c ≢ texts info

fields-Taken :
    (info c : ChanInfo) (key : GnuId)
    → (GnuId.is_set info.id ≡ true) × (is_empty info.name ≡ false)
    → key ≡ (if GnuId.is_set c.bc_id then c.bc_id else info.bc_id)
    → Taken info c (update_fields info (record c { bc_id = key }))
fields-Taken info c key n e =
    let d = record c { bc_id = key } in
    let t = update_fields-Towards info d in
    record {
      named = n;
      content = t.seen;
      other = rest-update_fields info d ∙ ap (λ k. record (rest c) { bc_id = k }) e;
      same = t.same;
      changed = t.told;
    }

-- `update(info)` refuses an info that has no identifier or no name, or that has another broadcaster's
-- identifier than the one that is known: then it changes nothing, and says so. Any other info is taken:
-- all texts and the bitrate become those of `info`, the broadcaster's identifier too if none was known,
-- nothing else changes, and the answer is true exactly when the texts or the bitrate were others before.
pub update_lem :
    (info c : ChanInfo)
    → (IsRefused info c × (update info c ≡ (c, false))) ⊎ Taken info c (update info c)
unfolding update
update_lem info c = elim (Bool-cases (GnuId.is_set info.id)) [
  | inr a ↦ inl (inl a, rw a refl)
  | inl a ↦ elim (Bool-cases (is_empty info.name)) [
    | inl b ↦ inl (inr (inl b), rw (a, b) refl)
    | inr b ↦ elim (Bool-cases (GnuId.is_set c.bc_id)) [
      | inr k ↦ inr (rw (a, b, k) (fields-Taken info c info.bc_id (a, b) (rw k refl)))
      | inl k ↦ elim (Bool-cases (GnuId.is_same c.bc_id info.bc_id)) [
        | inl l ↦ inr (rw (a, b, k, l) (fields-Taken info c c.bc_id (a, b) (rw k refl)))
        | inr l ↦ inl (inr (inr (k, l)), rw (a, b, k, l) refl)
      ]
    ]
  ]
]
