-- ===== src/Pcp/Info.antt =====
-- `ChanInfo` and `TrackInfo` of core/common/chaninfo.h and chaninfo.cpp: what is known of a channel, its
-- atoms, and `update`, with `readString` of core/common/atom.h. A `String` is its array of 256 bytes, with
-- a text up to the first NUL; its mark of an encoding is left out.
pub mod Text
pub mod Leaves
pub mod Round
pub mod Views
pub mod Fields
pub mod Update
mod Tests
use peercast_yt.Prelude.{
  ℕ, ◌+◌, ◌-◌, Bool, true, false, ◌&&◌, not, List, [], ◌∷◌, ◌++◌, ltb, ◌==◌, if◌then◌else◌,
  bytes_eq, length, drop, set,
}
use peercast_yt.Text.Split.{c_str}
use peercast_yt.GnuId
use peercast_yt.GnuId.{GnuId}
use peercast_yt.Io.{Reader, pure, ◌>>=◌, ◌>>◌, skip}
use peercast_yt.Atom.{
  Header, check_data, read_int_data, read_bytes, skip_atom, write_parent, write_int_atom,
  write_string_atom,
}
use peercast_yt.Hits.Atoms.{joined, when}
use peercast_yt.Pcp.{each_atom}

abbrev pub max_len : ℕ
max_len = 256

-- `isEmpty()`, `isSame(s)`, and what `=` leaves in the array.
abbrev pub is_empty : List ℕ → Bool
is_empty [] = true
is_empty (c ∷ s) = c == 0

abbrev pub is_same : List ℕ → List ℕ → Bool
is_same s t = bytes_eq (c_str s) (c_str t)

abbrev pub strcpy : List ℕ → List ℕ → List ℕ
strcpy dest src = c_str src ++ 0 ∷ drop (length (c_str src) + 1) dest

-- `readBytes(s, max, dlen)` and `readString(s, max, dlen)`, into an array.
unfoldable pub read_at_most : Header → ℕ → ℕ → Reader (List ℕ)
unfolding read_bytes
read_at_most h max dlen =
    let longer = (do b ← read_bytes h max; skip (dlen - max); pure b) in
    (do check_data h dlen; if ltb dlen max then read_bytes h dlen else longer)

unfoldable pub read_string : Header → ℕ → ℕ → List ℕ → Reader (List ℕ)
unfolding read_at_most
read_string h max dlen s = do
  check_data h dlen
  b ← read_at_most h max dlen
  pure (set (b ++ drop (length b) s) (max - 1) 0)

pub record TrackInfo : Type 0 where
  pub contact : List ℕ
  pub title : List ℕ
  pub artist : List ℕ
  pub album : List ℕ
  pub genre : List ℕ

pub record ChanInfo : Type 0 where
  pub name : List ℕ
  pub id : GnuId
  pub bc_id : GnuId
  pub bitrate : ℕ
  pub content_type : List ℕ
  pub mime_type : List ℕ
  pub stream_ext : List ℕ
  pub src_protocol : ℕ
  pub last_play_start : ℕ
  pub last_play_end : ℕ
  pub num_skips : ℕ
  pub created_time : ℕ
  pub status : ℕ
  pub track : TrackInfo
  pub desc : List ℕ
  pub genre : List ℕ
  pub url : List ℕ
  pub comment : List ℕ

abbrev pub pcp_chan_info : List ℕ
pcp_chan_info = b'i' ∷ b'n' ∷ b'f' ∷ b'o' ∷ []

abbrev pub pcp_chan_info_type : List ℕ
pcp_chan_info_type = b't' ∷ b'y' ∷ b'p' ∷ b'e' ∷ []

abbrev pub pcp_chan_info_streamtype : List ℕ
pcp_chan_info_streamtype = b's' ∷ b't' ∷ b'y' ∷ b'p' ∷ []

abbrev pub pcp_chan_info_streamext : List ℕ
pcp_chan_info_streamext = b's' ∷ b'e' ∷ b'x' ∷ b't' ∷ []

abbrev pub pcp_chan_info_bitrate : List ℕ
pcp_chan_info_bitrate = b'b' ∷ b'i' ∷ b't' ∷ b'r' ∷ []

abbrev pub pcp_chan_info_genre : List ℕ
pcp_chan_info_genre = b'g' ∷ b'n' ∷ b'r' ∷ b'e' ∷ []

abbrev pub pcp_chan_info_name : List ℕ
pcp_chan_info_name = b'n' ∷ b'a' ∷ b'm' ∷ b'e' ∷ []

abbrev pub pcp_chan_info_url : List ℕ
pcp_chan_info_url = b'u' ∷ b'r' ∷ b'l' ∷ 0 ∷ []

abbrev pub pcp_chan_info_desc : List ℕ
pcp_chan_info_desc = b'd' ∷ b'e' ∷ b's' ∷ b'c' ∷ []

abbrev pub pcp_chan_info_comment : List ℕ
pcp_chan_info_comment = b'c' ∷ b'm' ∷ b'n' ∷ b't' ∷ []

abbrev pub pcp_chan_track : List ℕ
pcp_chan_track = b't' ∷ b'r' ∷ b'c' ∷ b'k' ∷ []

abbrev pub pcp_chan_track_title : List ℕ
pcp_chan_track_title = b't' ∷ b'i' ∷ b't' ∷ b'l' ∷ []

abbrev pub pcp_chan_track_creator : List ℕ
pcp_chan_track_creator = b'c' ∷ b'r' ∷ b'e' ∷ b'a' ∷ []

abbrev pub pcp_chan_track_url : List ℕ
pcp_chan_track_url = b'u' ∷ b'r' ∷ b'l' ∷ 0 ∷ []

abbrev pub pcp_chan_track_album : List ℕ
pcp_chan_track_album = b'a' ∷ b'l' ∷ b'b' ∷ b'm' ∷ []

-- `readString` of an atom's data into one of the strings of a record.
abbrev pub read_into : {R : Type 0} → (R → List ℕ) → (List ℕ → R → R) → Header → R → Reader R
read_into get put h c = do v ← read_string h max_len h.num_data (get c); pure (put v c)

-- One round of `readInfoAtoms`.
unfoldable pub read_info_atom : ℕ → Header → ChanInfo → Reader ChanInfo
unfolding read_string read_int_data skip_atom
read_info_atom fuel h c =
    if bytes_eq h.id pcp_chan_info_name
    then read_into (λ c. c.name) (λ v c. record c { name = v }) h c
    else if bytes_eq h.id pcp_chan_info_bitrate
    then (do v ← read_int_data h; pure (record c { bitrate = v }))
    else if bytes_eq h.id pcp_chan_info_genre
    then read_into (λ c. c.genre) (λ v c. record c { genre = v }) h c
    else if bytes_eq h.id pcp_chan_info_url
    then read_into (λ c. c.url) (λ v c. record c { url = v }) h c
    else if bytes_eq h.id pcp_chan_info_desc
    then read_into (λ c. c.desc) (λ v c. record c { desc = v }) h c
    else if bytes_eq h.id pcp_chan_info_comment
    then read_into (λ c. c.comment) (λ v c. record c { comment = v }) h c
    else if bytes_eq h.id pcp_chan_info_type
    then read_into (λ c. c.content_type) (λ v c. record c { content_type = v }) h c
    else if bytes_eq h.id pcp_chan_info_streamtype
    then read_into (λ c. c.mime_type) (λ v c. record c { mime_type = v }) h c
    else if bytes_eq h.id pcp_chan_info_streamext
    then read_into (λ c. c.stream_ext) (λ v c. record c { stream_ext = v }) h c
    else (do skip_atom fuel h.num_children h.num_data; pure c)

unfoldable pub read_info_atoms : ℕ → ℕ → ChanInfo → Reader ChanInfo
unfolding read_info_atom each_atom
read_info_atoms fuel = each_atom (read_info_atom fuel)

-- One round of `readTrackAtoms`, on the track.
unfoldable pub read_track_atom : ℕ → Header → TrackInfo → Reader TrackInfo
unfolding read_string skip_atom
read_track_atom fuel h c =
    if bytes_eq h.id pcp_chan_track_title
    then read_into (λ c. c.title) (λ v c. record c { title = v }) h c
    else if bytes_eq h.id pcp_chan_track_creator
    then read_into (λ c. c.artist) (λ v c. record c { artist = v }) h c
    else if bytes_eq h.id pcp_chan_track_url
    then read_into (λ c. c.contact) (λ v c. record c { contact = v }) h c
    else if bytes_eq h.id pcp_chan_track_album
    then read_into (λ c. c.album) (λ v c. record c { album = v }) h c
    else (do skip_atom fuel h.num_children h.num_data; pure c)

unfoldable pub read_track_atoms : ℕ → ℕ → TrackInfo → Reader TrackInfo
unfolding read_track_atom each_atom
read_track_atoms fuel = each_atom (read_track_atom fuel)

-- `writeInfoAtoms`: the number of children, and the children.
abbrev pub num_info_atoms : ChanInfo → ℕ
num_info_atoms c =
    7 + (if is_empty c.mime_type then 0 else 1) + (if is_empty c.stream_ext then 0 else 1)

unfoldable pub info_atoms : ChanInfo → List (List ℕ)
info_atoms c =
    write_string_atom pcp_chan_info_name (c_str c.name)
    ∷ write_int_atom pcp_chan_info_bitrate c.bitrate
    ∷ write_string_atom pcp_chan_info_genre (c_str c.genre)
    ∷ write_string_atom pcp_chan_info_url (c_str c.url)
    ∷ write_string_atom pcp_chan_info_desc (c_str c.desc)
    ∷ write_string_atom pcp_chan_info_comment (c_str c.comment)
    ∷ write_string_atom pcp_chan_info_type (c_str c.content_type)
    ∷ []

unfoldable pub info_children : ChanInfo → List (List ℕ)
unfolding info_atoms
info_children c =
    info_atoms c
    ++ (when (not (is_empty c.mime_type))
          (write_string_atom pcp_chan_info_streamtype (c_str c.mime_type) ∷ [])
        ++ when (not (is_empty c.stream_ext))
            (write_string_atom pcp_chan_info_streamext (c_str c.stream_ext) ∷ []))

unfoldable pub write_info_atoms : ChanInfo → List ℕ
unfolding info_children
write_info_atoms c = write_parent pcp_chan_info (num_info_atoms c) ++ joined (info_children c)

-- `writeTrackAtoms`
unfoldable pub track_children : TrackInfo → List (List ℕ)
track_children c =
    write_string_atom pcp_chan_track_title (c_str c.title)
    ∷ write_string_atom pcp_chan_track_creator (c_str c.artist)
    ∷ write_string_atom pcp_chan_track_url (c_str c.contact)
    ∷ write_string_atom pcp_chan_track_album (c_str c.album)
    ∷ []

unfoldable pub write_track_atoms : TrackInfo → List ℕ
unfolding track_children
write_track_atoms c = write_parent pcp_chan_track 4 ++ joined (track_children c)

-- `if (!s.isSame(info.s)) { s = info.s; changed = true; }`, of a string of a record.
abbrev pub update_text : {R : Type 0} → (R → List ℕ) → (List ℕ → R → R) → R → R × Bool → R × Bool
update_text get put info p =
    if is_same (get p.0) (get info) then p else (put (strcpy (get p.0) (get info)) p.0, true)

-- `TrackInfo::update(inf)`
unfoldable pub update_track : TrackInfo → TrackInfo → TrackInfo × Bool
update_track inf c =
    let p1 = update_text (λ c. c.contact) (λ v c. record c { contact = v }) inf (c, false) in
    let p2 = update_text (λ c. c.title) (λ v c. record c { title = v }) inf p1 in
    let p3 = update_text (λ c. c.artist) (λ v c. record c { artist = v }) inf p2 in
    let p4 = update_text (λ c. c.album) (λ v c. record c { album = v }) inf p3 in
    update_text (λ c. c.genre) (λ v c. record c { genre = v }) inf p4

abbrev pub update_bitrate : ChanInfo → ChanInfo × Bool → ChanInfo × Bool
update_bitrate info p =
    if (p.0).bitrate == info.bitrate then p else (record (p.0) { bitrate = info.bitrate }, true)

abbrev pub take_track : TrackInfo × Bool → ChanInfo × Bool → ChanInfo × Bool
take_track t p = (record (p.0) { track = t.0 }, if t.1 then true else p.1)

-- The strings of `update(info)`, in its order.
unfoldable pub strings : ChanInfo → ChanInfo × Bool → ChanInfo × Bool
strings info p1 =
    let p2 = update_text (λ c. c.content_type) (λ v c. record c { content_type = v }) info p1 in
    let p3 = update_text (λ c. c.mime_type) (λ v c. record c { mime_type = v }) info p2 in
    let p4 = update_text (λ c. c.stream_ext) (λ v c. record c { stream_ext = v }) info p3 in
    let p5 = update_text (λ c. c.desc) (λ v c. record c { desc = v }) info p4 in
    let p6 = update_text (λ c. c.name) (λ v c. record c { name = v }) info p5 in
    let p7 = update_text (λ c. c.comment) (λ v c. record c { comment = v }) info p6 in
    let p8 = update_text (λ c. c.genre) (λ v c. record c { genre = v }) info p7 in
    update_text (λ c. c.url) (λ v c. record c { url = v }) info p8

abbrev pub with_track : ChanInfo → ChanInfo × Bool → ChanInfo × Bool
with_track info p = take_track (update_track info.track (p.0).track) p

-- `update(info)` behind its tests.
unfoldable pub update_fields : ChanInfo → ChanInfo → ChanInfo × Bool
unfolding update_track strings
update_fields info c = with_track info (strings info (update_bitrate info (c, false)))

-- `update(info)`: the new info, and whether it changed.
unfoldable pub update : ChanInfo → ChanInfo → ChanInfo × Bool
unfolding update_fields
update info c =
    if not (GnuId.is_set info.id)
    then (c, false)
    else if is_empty info.name
    then (c, false)
    else if GnuId.is_set c.bc_id
    then if GnuId.is_same c.bc_id info.bc_id then update_fields info c else (c, false)
    else update_fields info (record c { bc_id = info.bc_id })
