-- ===== src/Pcp/Info/Fields.antt =====
-- The strings of `TrackInfo` and `ChanInfo` by name, as what is read, written and seen of them.
use peercast_yt.Prelude.{refl}
use peercast_yt.Pcp.Info.{ChanInfo, TrackInfo}
use peercast_yt.Pcp.Info.Views.{TrackTexts, Texts, track_texts, texts, Field}

abbrev pub track_contact : Field TrackInfo TrackTexts track_texts
track_contact = record {
  get = λ c. c.contact;
  put = λ v c. record c { contact = v };
  see = λ v. v.contact;
  show = λ s v. record v { contact = s };
  see_view = λ c. refl;
  view_put = λ s c. refl;
  show_see = λ v. refl;
}

abbrev pub track_title : Field TrackInfo TrackTexts track_texts
track_title = record {
  get = λ c. c.title;
  put = λ v c. record c { title = v };
  see = λ v. v.title;
  show = λ s v. record v { title = s };
  see_view = λ c. refl;
  view_put = λ s c. refl;
  show_see = λ v. refl;
}

abbrev pub track_artist : Field TrackInfo TrackTexts track_texts
track_artist = record {
  get = λ c. c.artist;
  put = λ v c. record c { artist = v };
  see = λ v. v.artist;
  show = λ s v. record v { artist = s };
  see_view = λ c. refl;
  view_put = λ s c. refl;
  show_see = λ v. refl;
}

abbrev pub track_album : Field TrackInfo TrackTexts track_texts
track_album = record {
  get = λ c. c.album;
  put = λ v c. record c { album = v };
  see = λ v. v.album;
  show = λ s v. record v { album = s };
  see_view = λ c. refl;
  view_put = λ s c. refl;
  show_see = λ v. refl;
}

abbrev pub track_genre : Field TrackInfo TrackTexts track_texts
track_genre = record {
  get = λ c. c.genre;
  put = λ v c. record c { genre = v };
  see = λ v. v.genre;
  show = λ s v. record v { genre = s };
  see_view = λ c. refl;
  view_put = λ s c. refl;
  show_see = λ v. refl;
}

abbrev pub info_content_type : Field ChanInfo Texts texts
info_content_type = record {
  get = λ c. c.content_type;
  put = λ v c. record c { content_type = v };
  see = λ v. v.content_type;
  show = λ s v. record v { content_type = s };
  see_view = λ c. refl;
  view_put = λ s c. refl;
  show_see = λ v. refl;
}

abbrev pub info_mime_type : Field ChanInfo Texts texts
info_mime_type = record {
  get = λ c. c.mime_type;
  put = λ v c. record c { mime_type = v };
  see = λ v. v.mime_type;
  show = λ s v. record v { mime_type = s };
  see_view = λ c. refl;
  view_put = λ s c. refl;
  show_see = λ v. refl;
}

abbrev pub info_stream_ext : Field ChanInfo Texts texts
info_stream_ext = record {
  get = λ c. c.stream_ext;
  put = λ v c. record c { stream_ext = v };
  see = λ v. v.stream_ext;
  show = λ s v. record v { stream_ext = s };
  see_view = λ c. refl;
  view_put = λ s c. refl;
  show_see = λ v. refl;
}

abbrev pub info_desc : Field ChanInfo Texts texts
info_desc = record {
  get = λ c. c.desc;
  put = λ v c. record c { desc = v };
  see = λ v. v.desc;
  show = λ s v. record v { desc = s };
  see_view = λ c. refl;
  view_put = λ s c. refl;
  show_see = λ v. refl;
}

abbrev pub info_name : Field ChanInfo Texts texts
info_name = record {
  get = λ c. c.name;
  put = λ v c. record c { name = v };
  see = λ v. v.name;
  show = λ s v. record v { name = s };
  see_view = λ c. refl;
  view_put = λ s c. refl;
  show_see = λ v. refl;
}

abbrev pub info_comment : Field ChanInfo Texts texts
info_comment = record {
  get = λ c. c.comment;
  put = λ v c. record c { comment = v };
  see = λ v. v.comment;
  show = λ s v. record v { comment = s };
  see_view = λ c. refl;
  view_put = λ s c. refl;
  show_see = λ v. refl;
}

abbrev pub info_genre : Field ChanInfo Texts texts
info_genre = record {
  get = λ c. c.genre;
  put = λ v c. record c { genre = v };
  see = λ v. v.genre;
  show = λ s v. record v { genre = s };
  see_view = λ c. refl;
  view_put = λ s c. refl;
  show_see = λ v. refl;
}

abbrev pub info_url : Field ChanInfo Texts texts
info_url = record {
  get = λ c. c.url;
  put = λ v c. record c { url = v };
  see = λ v. v.url;
  show = λ s v. record v { url = s };
  see_view = λ c. refl;
  view_put = λ s c. refl;
  show_see = λ v. refl;
}
