-- ===== src/Pcp/Info/Leaves.antt =====
-- Each string and the bitrate of an info, read back from its atom.
use peercast_yt.Prelude.{
  ℕ, ◌<◌, ◌≡◌, refl, ap, ◌∙◌, List, [], ◌∷◌, ◌++◌, arith, length, length-append,
}
use peercast_yt.Text.Split.{c_str}
use peercast_yt.Io.{Reader, bind_result, pure, write_int}
use peercast_yt.Atom.{Header, write_string_atom, write_int_atom}
use peercast_yt.Pcp.Steps.{leaf_header, Reads, Reads-write_bytes, read_int-leaf}
use peercast_yt.Pcp.Info.{
  max_len, read_into, read_info_atom, read_track_atom, pcp_chan_info_name, pcp_chan_info_bitrate,
  pcp_chan_info_genre, pcp_chan_info_url, pcp_chan_info_desc, pcp_chan_info_comment,
  pcp_chan_info_type, pcp_chan_info_streamtype, pcp_chan_info_streamext, pcp_chan_track_title,
  pcp_chan_track_creator, pcp_chan_track_url, pcp_chan_track_album,
}
use peercast_yt.Pcp.Info.Text.{stored, read_string-fits}

abbrev pub Fits : List ℕ → Type 0
Fits s = length (c_str s) < max_len

-- A string of a record, and the test on an identifier that leads to it.
module _ {R : Type 0} (step : ℕ → Header → R → Reader R) (id : List ℕ) (four : length id ≡ 4)
    (get : R → List ℕ) (put : List ℕ → R → R)
    (dispatch : (fuel n : ℕ) (c : R)
      → step fuel (leaf_header id n) c ≡ read_into get put (leaf_header id n) c) where
  pub text-Reads :
      (s : List ℕ)
      → Fits s
      → Reads step (write_string_atom id (c_str s)) (λ c. put (stored (c_str s) (get c)) c)
  text-Reads s h =
      Reads-write_bytes step id (c_str s ++ 0 ∷ []) four
        (omega (arith, h, length-append (c_str s) (0 ∷ []))) (λ c. put (stored (c_str s) (get c)) c)
        (λ fuel c t.
          ap (λ m. m ((c_str s ++ 0 ∷ []) ++ t)) (dispatch fuel (length (c_str s ++ 0 ∷ [])) c)
          ∙ ap (λ r. bind_result r (λ v. pure (put v c)))
              (read_string-fits id (c_str s ++ 0 ∷ []) (get c) t
                (omega (arith, h, length-append (c_str s) (0 ∷ [])))))

pub bitrate-Reads :
    (v : ℕ)
    → v < 4294967296
    → Reads read_info_atom (write_int_atom pcp_chan_info_bitrate v) (λ c. record c { bitrate = v })
unfolding read_info_atom
bitrate-Reads v small =
    Reads-write_bytes read_info_atom pcp_chan_info_bitrate (write_int v) refl (omega arith)
      (λ c. record c { bitrate = v })
      (λ fuel s t. rw (read_int-leaf pcp_chan_info_bitrate v t small, read_info_atom) refl)

pub name-Reads :
    (s : List ℕ)
    → Fits s
    → Reads read_info_atom
        (write_string_atom pcp_chan_info_name (c_str s))
        (λ c. record c { name = stored (c_str s) c.name })
unfolding read_info_atom
name-Reads =
    text-Reads read_info_atom pcp_chan_info_name refl (λ c. c.name) (λ v c. record c { name = v })
      (λ fuel n c. refl)

pub genre-Reads :
    (s : List ℕ)
    → Fits s
    → Reads read_info_atom
        (write_string_atom pcp_chan_info_genre (c_str s))
        (λ c. record c { genre = stored (c_str s) c.genre })
unfolding read_info_atom
genre-Reads =
    text-Reads read_info_atom pcp_chan_info_genre refl (λ c. c.genre)
      (λ v c. record c { genre = v }) (λ fuel n c. refl)

pub url-Reads :
    (s : List ℕ)
    → Fits s
    → Reads read_info_atom
        (write_string_atom pcp_chan_info_url (c_str s))
        (λ c. record c { url = stored (c_str s) c.url })
unfolding read_info_atom
url-Reads =
    text-Reads read_info_atom pcp_chan_info_url refl (λ c. c.url) (λ v c. record c { url = v })
      (λ fuel n c. refl)

pub desc-Reads :
    (s : List ℕ)
    → Fits s
    → Reads read_info_atom
        (write_string_atom pcp_chan_info_desc (c_str s))
        (λ c. record c { desc = stored (c_str s) c.desc })
unfolding read_info_atom
desc-Reads =
    text-Reads read_info_atom pcp_chan_info_desc refl (λ c. c.desc) (λ v c. record c { desc = v })
      (λ fuel n c. refl)

pub comment-Reads :
    (s : List ℕ)
    → Fits s
    → Reads read_info_atom
        (write_string_atom pcp_chan_info_comment (c_str s))
        (λ c. record c { comment = stored (c_str s) c.comment })
unfolding read_info_atom
comment-Reads =
    text-Reads read_info_atom pcp_chan_info_comment refl (λ c. c.comment)
      (λ v c. record c { comment = v }) (λ fuel n c. refl)

pub type-Reads :
    (s : List ℕ)
    → Fits s
    → Reads read_info_atom
        (write_string_atom pcp_chan_info_type (c_str s))
        (λ c. record c { content_type = stored (c_str s) c.content_type })
unfolding read_info_atom
type-Reads =
    text-Reads read_info_atom pcp_chan_info_type refl (λ c. c.content_type)
      (λ v c. record c { content_type = v }) (λ fuel n c. refl)

pub streamtype-Reads :
    (s : List ℕ)
    → Fits s
    → Reads read_info_atom
        (write_string_atom pcp_chan_info_streamtype (c_str s))
        (λ c. record c { mime_type = stored (c_str s) c.mime_type })
unfolding read_info_atom
streamtype-Reads =
    text-Reads read_info_atom pcp_chan_info_streamtype refl (λ c. c.mime_type)
      (λ v c. record c { mime_type = v }) (λ fuel n c. refl)

pub streamext-Reads :
    (s : List ℕ)
    → Fits s
    → Reads read_info_atom
        (write_string_atom pcp_chan_info_streamext (c_str s))
        (λ c. record c { stream_ext = stored (c_str s) c.stream_ext })
unfolding read_info_atom
streamext-Reads =
    text-Reads read_info_atom pcp_chan_info_streamext refl (λ c. c.stream_ext)
      (λ v c. record c { stream_ext = v }) (λ fuel n c. refl)

pub title-Reads :
    (s : List ℕ)
    → Fits s
    → Reads read_track_atom
        (write_string_atom pcp_chan_track_title (c_str s))
        (λ c. record c { title = stored (c_str s) c.title })
unfolding read_track_atom
title-Reads =
    text-Reads read_track_atom pcp_chan_track_title refl (λ c. c.title)
      (λ v c. record c { title = v }) (λ fuel n c. refl)

pub creator-Reads :
    (s : List ℕ)
    → Fits s
    → Reads read_track_atom
        (write_string_atom pcp_chan_track_creator (c_str s))
        (λ c. record c { artist = stored (c_str s) c.artist })
unfolding read_track_atom
creator-Reads =
    text-Reads read_track_atom pcp_chan_track_creator refl (λ c. c.artist)
      (λ v c. record c { artist = v }) (λ fuel n c. refl)

pub contact-Reads :
    (s : List ℕ)
    → Fits s
    → Reads read_track_atom
        (write_string_atom pcp_chan_track_url (c_str s))
        (λ c. record c { contact = stored (c_str s) c.contact })
unfolding read_track_atom
contact-Reads =
    text-Reads read_track_atom pcp_chan_track_url refl (λ c. c.contact)
      (λ v c. record c { contact = v }) (λ fuel n c. refl)

pub album-Reads :
    (s : List ℕ)
    → Fits s
    → Reads read_track_atom
        (write_string_atom pcp_chan_track_album (c_str s))
        (λ c. record c { album = stored (c_str s) c.album })
unfolding read_track_atom
album-Reads =
    text-Reads read_track_atom pcp_chan_track_album refl (λ c. c.album)
      (λ v c. record c { album = v }) (λ fuel n c. refl)
