-- ===== src/Pcp/Info/Views.antt =====
-- What is seen of an info and of a track: the texts in the arrays. Steps that take one towards another.
use peercast_yt.Prelude.{
  ℕ, ◌≡◌, ◌≢◌, inl, inr, refl, sym, ap, ◌∙◌, Bool, true, false, List, Bool-cases, bytes_eq,
  bytes_eq→eq, bytes_eq_refl,
}
use peercast_yt.Text.Split.{c_str}
use peercast_yt.GnuId.{GnuId}
use peercast_yt.Pcp.Info.{ChanInfo, TrackInfo, is_same, strcpy, update_text}
use peercast_yt.Pcp.Info.Text.{c_str-strcpy}

-- The texts of a track and of an info, and the bitrate.
pub record TrackTexts : Type 0 where
  pub contact : List ℕ
  pub title : List ℕ
  pub artist : List ℕ
  pub album : List ℕ
  pub genre : List ℕ

pub record Texts : Type 0 where
  pub bitrate : ℕ
  pub content_type : List ℕ
  pub mime_type : List ℕ
  pub stream_ext : List ℕ
  pub desc : List ℕ
  pub name : List ℕ
  pub comment : List ℕ
  pub genre : List ℕ
  pub url : List ℕ
  pub track : TrackTexts

abbrev pub track_texts : TrackInfo → TrackTexts
track_texts c = record {
  contact = c_str c.contact;
  title = c_str c.title;
  artist = c_str c.artist;
  album = c_str c.album;
  genre = c_str c.genre;
}

abbrev pub texts : ChanInfo → Texts
texts c = record {
  bitrate = c.bitrate;
  content_type = c_str c.content_type;
  mime_type = c_str c.mime_type;
  stream_ext = c_str c.stream_ext;
  desc = c_str c.desc;
  name = c_str c.name;
  comment = c_str c.comment;
  genre = c_str c.genre;
  url = c_str c.url;
  track = track_texts c.track;
}

-- What `update` leaves alone.
pub record Rest : Type 0 where
  pub id : GnuId
  pub bc_id : GnuId
  pub src_protocol : ℕ
  pub last_play_start : ℕ
  pub last_play_end : ℕ
  pub num_skips : ℕ
  pub created_time : ℕ
  pub status : ℕ

abbrev pub rest : ChanInfo → Rest
rest c = record {
  id = c.id;
  bc_id = c.bc_id;
  src_protocol = c.src_protocol;
  last_play_start = c.last_play_start;
  last_play_end = c.last_play_end;
  num_skips = c.num_skips;
  created_time = c.created_time;
  status = c.status;
}

-- Steps from a record that is seen as `first` towards one that is seen as `last`: what is seen of the
-- record now, and the mark of a change, which is set if these two differ.
pub record Towards {R V : Type 0} (view : R → V) (first last now : V) (p : R × Bool) : Type 0 where
  pub seen : view p.0 ≡ now
  pub same : p.1 ≡ false → first ≡ now
  pub told : p.1 ≡ true → first ≢ last

-- A string of a record, and its text in the view.
module _ {R V : Type 0} (view : R → V) (get : R → List ℕ) (put : List ℕ → R → R) (see : V → List ℕ)
    (show : List ℕ → V → V) (see_view : (c : R) → see (view c) ≡ c_str (get c))
    (view_put : (s : List ℕ) (c : R) → view (put s c) ≡ show (c_str s) (view c))
    (show_see : (v : V) → show (see v) v ≡ v) where
  pub differ :
      (info c : R) (first last now : V)
      → view c ≡ now
      → see first ≡ see now
      → see last ≡ c_str (get info)
      → is_same (get c) (get info) ≡ false
      → first ≢ last
  differ info c first last now n f l e k =
      let same : c_str (get c) ≡ c_str (get info) =
        sym (see_view c) ∙ ap see n ∙ sym f ∙ ap see k ∙ l in
      let both =
        sym e ∙ ap (λ t. bytes_eq (c_str (get c)) t) (sym same) ∙ bytes_eq_refl (c_str (get c)) in
      cc

  pub update_text-Towards :
      (info : R) (p : R × Bool) (first last now : V)
      → Towards view first last now p
      → see first ≡ see now
      → see last ≡ c_str (get info)
      → Towards view first last (show (c_str (get info)) now) (update_text get put info p)
  update_text-Towards info (c, b) first last now t f l =
      elim (Bool-cases (is_same (get c) (get info))) [
        | inl e ↦
            let stays : now ≡ show (c_str (get info)) now =
              sym (show_see now)
              ∙ ap (λ s. show s now) (ap see (sym t.seen) ∙ see_view c ∙ bytes_eq→eq _ _ e) in
            rw e (record { seen = t.seen ∙ stays; same = λ k. t.same k ∙ stays; told = t.told })
        | inr e ↦ rw e (record {
          seen =
              view_put (strcpy (get c) (get info)) c
              ∙ ap (λ s. show s (view c)) (c_str-strcpy (get c) (get info))
              ∙ ap (show (c_str (get info))) t.seen;
          same = λ k. cc;
          told = λ k. differ info c first last now t.seen f l e;
        })
      ]

pub start :
    {R V : Type 0} (view : R → V) (c : R) (last : V)
    → Towards view (view c) last (view c) (c, false)
start view c last = record { seen = refl; same = λ k. refl; told = λ k. cc }

-- A string of a track or of an info, by its name.
module _ (R V : Type 0) (view : R → V) where
  pub record Field : Type 0 where
    pub get : R → List ℕ
    pub put : List ℕ → R → R
    pub see : V → List ℕ
    pub show : List ℕ → V → V
    pub see_view : (c : R) → see (view c) ≡ c_str (get c)
    pub view_put : (s : List ℕ) (c : R) → view (put s c) ≡ show (c_str s) (view c)
    pub show_see : (v : V) → show (see v) v ≡ v

  pub field-Towards :
      (f : Field) (info : R) (p : R × Bool) (first last now : V)
      → Towards view first last now p
      → f.see first ≡ f.see now
      → f.see last ≡ c_str (f.get info)
      → Towards view first last (f.show (c_str (f.get info)) now) (update_text f.get f.put info p)
  field-Towards f =
      update_text-Towards view f.get f.put f.see f.show f.see_view f.view_put f.show_see
