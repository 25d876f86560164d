-- ===== src/Pcp/Info/Tests.antt =====
-- Channel infos at concrete texts.
use peercast_yt.Prelude.{ℕ, ◌≡◌, ◌⊎◌, refl, true, false, List, [], ◌∷◌, ◌++◌, arith, replicate}
use peercast_yt.Text.Split.{c_str}
use peercast_yt.GnuId.{cleared}
use peercast_yt.Io.{ok, err, bad_atom}
use peercast_yt.Atom.{read_header}
use peercast_yt.Hits.Atoms.{joined}
use peercast_yt.Pcp.Steps.{leaf_header}
use peercast_yt.Pcp.Info.{
  ChanInfo, TrackInfo, update, read_string, read_info_atoms, write_info_atoms, info_children,
  num_info_atoms, pcp_chan_info, pcp_chan_info_name, max_len,
}
use peercast_yt.Pcp.Info.Text.{read_string-long}
use peercast_yt.Pcp.Info.Round.{Told, read_info_atoms-write_info_atoms}
use peercast_yt.Pcp.Info.Update.{IsRefused, Taken, update_lem}

abbrev text : ℕ → List ℕ
text c = c ∷ replicate 255 0

abbrev no_track : TrackInfo
no_track = record {
  contact = text 0;
  title = text 0;
  artist = text 0;
  album = text 0;
  genre = text 0;
}

abbrev old_info : ChanInfo
old_info = record {
  name = text 0;
  id = cleared;
  bc_id = cleared;
  bitrate = 0;
  content_type = text 0;
  mime_type = text 0;
  stream_ext = text 0;
  src_protocol = 0;
  last_play_start = 0;
  last_play_end = 0;
  num_skips = 0;
  created_time = 0;
  status = 0;
  track = no_track;
  desc = text 0;
  genre = text 0;
  url = text 0;
  comment = text 0;
}

abbrev new_info : ChanInfo
new_info = record old_info {
  name = text b'n';
  id = record { id = replicate 16 7; store_time = 0 };
  bitrate = 500;
  mime_type = text b'm';
}

took : (update new_info old_info).1 ≡ true
unfolding update c_str
took = refl

update_lem_example :
    (IsRefused new_info old_info × (update new_info old_info ≡ (old_info, false)))
    ⊎ Taken new_info old_info (update new_info old_info)
update_lem_example = update_lem new_info old_info

read_info_atoms-write_info_atoms_example :
    (r : ChanInfo) × (read_header (write_info_atoms new_info ++ 9 ∷ []) ≡ (
      ok (record { id = pcp_chan_info; num_children = num_info_atoms new_info; num_data = 0 }),
      joined (info_children new_info) ++ 9 ∷ [],
    ))
    × (read_info_atoms 1
          (num_info_atoms new_info)
          old_info
          (joined (info_children new_info) ++ 9 ∷ [])
        ≡ (ok r, 9 ∷ []))
    × Told new_info old_info r
unfolding c_str
read_info_atoms-write_info_atoms_example =
    read_info_atoms-write_info_atoms 1 new_info old_info (9 ∷ []) (record {
      name = omega arith;
      genre = omega arith;
      url = omega arith;
      desc = omega arith;
      comment = omega arith;
      content_type = omega arith;
      mime_type = omega arith;
      stream_ext = omega arith;
      bitrate = omega arith;
    })

read_string-long_example :
    read_string (leaf_header pcp_chan_info_name 300) max_len 300 (text 0) (replicate 300 b'a')
    ≡ (err bad_atom, replicate 300 b'a')
read_string-long_example =
    read_string-long pcp_chan_info_name (text 0) (replicate 300 b'a') 300 (omega arith)
