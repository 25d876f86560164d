-- ===== src/Pcp/Info/Round.antt =====
-- What `writeInfoAtoms` and `writeTrackAtoms` write, read by `readInfoAtoms` and `readTrackAtoms`.
use peercast_yt.Prelude.{
  ℕ, ◌+◌, ◌<◌, ◌≡◌, refl, sym, ap, ◌∙◌, Bool, true, false, not, List, [], ◌∷◌, ◌++◌, if◌then◌else◌,
  arith, length, append_assoc,
}
use peercast_yt.Text.Split.{c_str}
use peercast_yt.Io.{ok, write_int}
use peercast_yt.Atom.{write_string_atom, read_header, write_parent, with_top, top_bit}
use peercast_yt.Atom.Tree.{read_words, header-parent}
use peercast_yt.Hits.Atoms.{joined, when}
use peercast_yt.Pcp.Steps.{Writes, Writes-nil, Writes-cons, Writes-append, each_atom-Writes}
use peercast_yt.Pcp.Info
use peercast_yt.Pcp.Info.{
  ChanInfo, TrackInfo, max_len, is_empty, read_into, read_info_atom, read_info_atoms,
  read_track_atom, read_track_atoms, info_atoms, info_children, track_children, num_info_atoms,
  pcp_chan_info, pcp_chan_info_name, pcp_chan_info_bitrate, pcp_chan_info_genre, pcp_chan_info_url,
  pcp_chan_info_desc, pcp_chan_info_comment, pcp_chan_info_type, pcp_chan_info_streamtype,
  pcp_chan_info_streamext, pcp_chan_track_title, pcp_chan_track_creator, pcp_chan_track_url,
  pcp_chan_track_album,
}
use peercast_yt.Pcp.Info.Text.{stored, c_str-stored}
use peercast_yt.Pcp.Info.Leaves.{
  Fits, bitrate-Reads, name-Reads, genre-Reads, url-Reads, desc-Reads, comment-Reads, type-Reads,
  streamtype-Reads, streamext-Reads, title-Reads, creator-Reads, contact-Reads, album-Reads,
}

-- Every text is shorter than its array, and the bitrate is a word.
pub record IsSized (c : ChanInfo) : Type 0 where
  pub name : Fits c.name
  pub genre : Fits c.genre
  pub url : Fits c.url
  pub desc : Fits c.desc
  pub comment : Fits c.comment
  pub content_type : Fits c.content_type
  pub mime_type : Fits c.mime_type
  pub stream_ext : Fits c.stream_ext
  pub bitrate : c.bitrate < 4294967296

abbrev first_told : ChanInfo → ChanInfo → ChanInfo
first_told c old = record old {
  name = stored (c_str c.name) old.name;
  bitrate = c.bitrate;
  genre = stored (c_str c.genre) old.genre;
  url = stored (c_str c.url) old.url;
  desc = stored (c_str c.desc) old.desc;
  comment = stored (c_str c.comment) old.comment;
  content_type = stored (c_str c.content_type) old.content_type;
}

abbrev mime_told : ChanInfo → ChanInfo → ChanInfo
mime_told c old = record old { mime_type = stored (c_str c.mime_type) old.mime_type }

abbrev ext_told : ChanInfo → ChanInfo → ChanInfo
ext_told c old = record old { stream_ext = stored (c_str c.stream_ext) old.stream_ext }

abbrev told_by : Bool → Bool → ChanInfo → ChanInfo → ChanInfo
told_by a b c old =
    let s1 = first_told c old in
    let s2 = if not a then mime_told c s1 else s1 in if not b then ext_told c s2 else s2

abbrev told : ChanInfo → ChanInfo → ChanInfo
told c old = told_by (is_empty c.mime_type) (is_empty c.stream_ext) c old

Writes-when :
    (b : Bool) (ws : List (List ℕ)) (f : ChanInfo → ChanInfo)
    → Writes read_info_atom ws f
    → Writes read_info_atom (when b ws) (λ s. if b then f s else s)
Writes-when true ws f h = h
Writes-when false ws f h = (Writes-nil read_info_atom)

length-info_children : (c : ChanInfo) → length (info_children c) ≡ num_info_atoms c
unfolding info_children
length-info_children c = by_tests (is_empty c.mime_type) (is_empty c.stream_ext)
  where
    by_tests :
        (a b : Bool)
        → length (
            info_atoms c
            ++ (when (not a) ((write_string_atom pcp_chan_info_streamtype (c_str c.mime_type)) ∷ [])
                ++ when
                    (not b)
                    ((write_string_atom pcp_chan_info_streamext (c_str c.stream_ext)) ∷ [])))
          ≡ 7 + (if a then 0 else 1) + (if b then 0 else 1)
    by_tests true true = refl
    by_tests true false = refl
    by_tests false true = refl
    by_tests false false = refl

module _ (c : ChanInfo) (h : IsSized c) where
  first-Writes : Writes read_info_atom (info_atoms c) (first_told c)
  unfolding info_atoms
  first-Writes = Writes-cons read_info_atom _ _ _ _ (name-Reads c.name h.name) (
      Writes-cons read_info_atom _ _ _ _ (bitrate-Reads c.bitrate h.bitrate) (
        Writes-cons read_info_atom _ _ _ _ (genre-Reads c.genre h.genre) (
          Writes-cons read_info_atom _ _ _ _ (url-Reads c.url h.url) (
            Writes-cons read_info_atom _ _ _ _ (desc-Reads c.desc h.desc) (
              Writes-cons read_info_atom _ _ _ _ (comment-Reads c.comment h.comment) (
                Writes-cons read_info_atom _ _ _ _ (type-Reads c.content_type h.content_type)
                  (Writes-nil read_info_atom)))))))

  info-Writes : Writes read_info_atom (info_children c) (told c)
  unfolding info_children
  info-Writes = Writes-append read_info_atom _ _ _ _ first-Writes (
      Writes-append read_info_atom _ _ _ _
        (Writes-when (not (is_empty c.mime_type)) _ (mime_told c) (
          Writes-cons read_info_atom _ _ _ _ (streamtype-Reads c.mime_type h.mime_type)
            (Writes-nil read_info_atom)))
        (Writes-when (not (is_empty c.stream_ext)) _ (ext_told c) (
          Writes-cons read_info_atom _ _ _ _ (streamext-Reads c.stream_ext h.stream_ext)
            (Writes-nil read_info_atom))))

-- What the receiver of the message of `c` has, whose info was `old`.
pub record Told (c old r : ChanInfo) : Type 0 where
  pub name : c_str r.name ≡ c_str c.name
  pub bitrate : r.bitrate ≡ c.bitrate
  pub genre : c_str r.genre ≡ c_str c.genre
  pub url : c_str r.url ≡ c_str c.url
  pub desc : c_str r.desc ≡ c_str c.desc
  pub comment : c_str r.comment ≡ c_str c.comment
  pub content_type : c_str r.content_type ≡ c_str c.content_type
  pub mime_type :
      c_str r.mime_type ≡ (if is_empty c.mime_type then c_str old.mime_type else c_str c.mime_type)
  pub stream_ext :
      c_str r.stream_ext
      ≡ (if is_empty c.stream_ext then c_str old.stream_ext else c_str c.stream_ext)
  pub id : r.id ≡ old.id
  pub bc_id : r.bc_id ≡ old.bc_id
  pub track : r.track ≡ old.track

-- The same, field by field.
abbrev received : Bool → Bool → ChanInfo → ChanInfo → ChanInfo
received a b c old = record (first_told c old) {
  mime_type = if a then old.mime_type else stored (c_str c.mime_type) old.mime_type;
  stream_ext = if b then old.stream_ext else stored (c_str c.stream_ext) old.stream_ext;
}

received-told : (a b : Bool) (c old : ChanInfo) → told_by a b c old ≡ received a b c old
received-told true true c old = refl
received-told true false c old = refl
received-told false true c old = refl
received-told false false c old = refl

text_by :
    (a : Bool) (s old : List ℕ)
    → Fits s
    → c_str (if a then old else stored (c_str s) old) ≡ (if a then c_str old else c_str s)
text_by true s old h = refl
text_by false s old h = c_str-stored s old h

received-Told :
    (c old : ChanInfo)
    → IsSized c
    → Told c old (received (is_empty c.mime_type) (is_empty c.stream_ext) c old)
received-Told c old h = record {
  name = c_str-stored c.name old.name h.name;
  bitrate = refl;
  genre = c_str-stored c.genre old.genre h.genre;
  url = c_str-stored c.url old.url h.url;
  desc = c_str-stored c.desc old.desc h.desc;
  comment = c_str-stored c.comment old.comment h.comment;
  content_type = c_str-stored c.content_type old.content_type h.content_type;
  mime_type = text_by (is_empty c.mime_type) c.mime_type old.mime_type h.mime_type;
  stream_ext = text_by (is_empty c.stream_ext) c.stream_ext old.stream_ext h.stream_ext;
  id = refl;
  bc_id = refl;
  track = refl;
}

read_header-parent :
    (id : List ℕ) (n : ℕ) (b t : List ℕ)
    → length id ≡ 4
    → n < top_bit
    → read_header ((write_parent id n ++ b) ++ t)
      ≡ (ok (record { id = id; num_children = n; num_data = 0 }), b ++ t)
read_header-parent id n b t four small =
    ap read_header
      (append_assoc (write_parent id n) b t ∙ append_assoc id (write_int (with_top n)) (b ++ t))
    ∙ read_words id (with_top n) (b ++ t) four (omega arith)
    ∙ ap (λ h. (ok h, b ++ t)) (header-parent id n small)

-- The children that `writeInfoAtoms` writes are as many as it announces, and `readInfoAtoms` reads them
-- in full, whatever follows: the texts and the bitrate of the info become those of the one that was sent,
-- but for a MIME type or an extension that is empty, which is not sent and leaves the old one; the
-- identifiers and the track stay. This is for texts of at most 255 bytes and a bitrate of 32 bits.
pub read_info_atoms-write_info_atoms :
    (fuel : ℕ) (c old : ChanInfo) (t : List ℕ)
    → IsSized c
    → (r : ChanInfo) × (read_header (Info.write_info_atoms c ++ t) ≡ (
      ok (record { id = pcp_chan_info; num_children = num_info_atoms c; num_data = 0 }),
      joined (info_children c) ++ t,
    ))
      × (read_info_atoms fuel (num_info_atoms c) old (joined (info_children c) ++ t) ≡ (ok r, t))
      × Told c old r
unfolding Info.write_info_atoms read_info_atoms
read_info_atoms-write_info_atoms fuel c old t h = (
  received (is_empty c.mime_type) (is_empty c.stream_ext) c old,
  read_header-parent pcp_chan_info (num_info_atoms c) (joined (info_children c)) t refl
      (omega (arith, few c)),
  ap (λ n. read_info_atoms fuel n old (joined (info_children c) ++ t))
        (sym (length-info_children c))
      ∙ each_atom-Writes read_info_atom (info_children c) (told c) fuel old t (info-Writes c h)
      ∙ ap (λ r. (ok r, t)) (received-told (is_empty c.mime_type) (is_empty c.stream_ext) c old),
  received-Told c old h,
)
  where
    few : (c : ChanInfo) → num_info_atoms c < 10
    few c = ground arith

-- What the receiver of the message of a track has.
pub record TrackTold (c old r : TrackInfo) : Type 0 where
  pub title : c_str r.title ≡ c_str c.title
  pub artist : c_str r.artist ≡ c_str c.artist
  pub contact : c_str r.contact ≡ c_str c.contact
  pub album : c_str r.album ≡ c_str c.album
  pub genre : r.genre ≡ old.genre

-- The same for a track, whose genre is not sent.
pub read_track_atoms-track_children :
    (fuel : ℕ) (c old : TrackInfo) (t : List ℕ)
    → Fits c.title
    → Fits c.artist
    → Fits c.contact
    → Fits c.album
    → (r : TrackInfo) × (read_track_atoms fuel 4 old (joined (track_children c) ++ t) ≡ (ok r, t))
      × TrackTold c old r
unfolding read_track_atoms track_children
read_track_atoms-track_children fuel c old t h1 h2 h3 h4 = (
  record old {
    title = stored (c_str c.title) old.title;
    artist = stored (c_str c.artist) old.artist;
    contact = stored (c_str c.contact) old.contact;
    album = stored (c_str c.album) old.album;
  },
  each_atom-Writes read_track_atom (track_children c) _ fuel old t (
      Writes-cons read_track_atom _ _ _ _ (title-Reads c.title h1) (
        Writes-cons read_track_atom _ _ _ _ (creator-Reads c.artist h2) (
          Writes-cons read_track_atom _ _ _ _ (contact-Reads c.contact h3) (
            Writes-cons read_track_atom _ _ _ _ (album-Reads c.album h4)
              (Writes-nil read_track_atom))))),
  record {
    title = c_str-stored c.title old.title h1;
    artist = c_str-stored c.artist old.artist h2;
    contact = c_str-stored c.contact old.contact h3;
    album = c_str-stored c.album old.album h4;
    genre = refl;
  },
)
