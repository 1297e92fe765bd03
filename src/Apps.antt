-- ===== src/Apps.antt =====
-- The application types of dpi/types.py and the table that maps a host name to one of them.
-- A string literal is written as its code points, with the string in a comment.
pub mod Types
pub mod Spec
pub mod Codes
pub use Types.{
  AppType, unknown, http, https, dns, tls, quic, google, facebook, youtube, twitter, instagram,
  netflix, amazon, microsoft, apple, whatsapp, telegram, tiktok, spotify, zoom, discord, github,
  cloudflare, app_count,
}
unfoldable pub use Types.{app_code, same_app, app_type_to_string}
use python_deep_packet_inspe.Prelude.{ℕ, Bool, false, ◌||◌, List, [], ◌∷◌, if◌then◌else◌}
use python_deep_packet_inspe.Text.{
  dot, same, is_infix, is_suffix, split, is_part, starts_part, lower,
}

-- How a pattern is compared with a host name.
pub data MatchMode : Type 0 where
  sub dom lbl pfx : MatchMode

unfoldable pub pattern_matches : List ℕ → List ℕ → MatchMode → Bool
unfolding is_infix same is_suffix is_part starts_part split
pattern_matches host pattern sub = is_infix pattern host
pattern_matches host pattern dom = same host pattern || is_suffix (dot ∷ pattern) host
pattern_matches host pattern lbl = is_part pattern (split dot host)
pattern_matches host pattern pfx = starts_part pattern (split dot host)

abbrev pub Group : Type 0
Group = AppType × List (List ℕ × MatchMode)

-- The inner loop: whether some pattern of a group matches.
unfoldable pub matches_any : List ℕ → List (List ℕ × MatchMode) → Bool
unfolding pattern_matches
matches_any host [] = false
matches_any host ((pattern, mode) ∷ patterns) =
    pattern_matches host pattern mode || matches_any host patterns

-- The outer loop, with the result after it.
unfoldable pub first_match : List ℕ → List Group → AppType
unfolding matches_any
first_match host [] = https
first_match host ((app_type, patterns) ∷ groups) =
    if matches_any host patterns then app_type else first_match host groups

abbrev pub sni_patterns : List Group
sni_patterns =
    -- youtube, ytimg, youtu.be, yt3.ggpht
    (
      youtube,
      (121 ∷ 111 ∷ 117 ∷ 116 ∷ 117 ∷ 98 ∷ 101 ∷ [], sub)
          ∷ (121 ∷ 116 ∷ 105 ∷ 109 ∷ 103 ∷ [], sub)
          ∷ (121 ∷ 111 ∷ 117 ∷ 116 ∷ 117 ∷ 46 ∷ 98 ∷ 101 ∷ [], dom)
          ∷ (121 ∷ 116 ∷ 51 ∷ 46 ∷ 103 ∷ 103 ∷ 112 ∷ 104 ∷ 116 ∷ [], sub)
          ∷ [],
    )
    ∷
        -- instagram, cdninstagram
        (
          instagram,
          (105 ∷ 110 ∷ 115 ∷ 116 ∷ 97 ∷ 103 ∷ 114 ∷ 97 ∷ 109 ∷ [], sub)
              ∷ (99 ∷ 100 ∷ 110 ∷ 105 ∷ 110 ∷ 115 ∷ 116 ∷ 97 ∷ 103 ∷ 114 ∷ 97 ∷ 109 ∷ [], sub)
              ∷ [],
        )
    ∷
        -- whatsapp, wa.me
        (
          whatsapp,
          (119 ∷ 104 ∷ 97 ∷ 116 ∷ 115 ∷ 97 ∷ 112 ∷ 112 ∷ [], sub)
              ∷ (119 ∷ 97 ∷ 46 ∷ 109 ∷ 101 ∷ [], dom)
              ∷ [],
        )
    ∷
        -- facebook, fbcdn, fb.com, fbsbx, meta.com
        (
          facebook,
          (102 ∷ 97 ∷ 99 ∷ 101 ∷ 98 ∷ 111 ∷ 111 ∷ 107 ∷ [], sub)
              ∷ (102 ∷ 98 ∷ 99 ∷ 100 ∷ 110 ∷ [], sub)
              ∷ (102 ∷ 98 ∷ 46 ∷ 99 ∷ 111 ∷ 109 ∷ [], dom)
              ∷ (102 ∷ 98 ∷ 115 ∷ 98 ∷ 120 ∷ [], sub)
              ∷ (109 ∷ 101 ∷ 116 ∷ 97 ∷ 46 ∷ 99 ∷ 111 ∷ 109 ∷ [], dom)
              ∷ [],
        )
    ∷
        -- netflix, nflxvideo, nflximg
        (
          netflix,
          (110 ∷ 101 ∷ 116 ∷ 102 ∷ 108 ∷ 105 ∷ 120 ∷ [], sub)
              ∷ (110 ∷ 102 ∷ 108 ∷ 120 ∷ 118 ∷ 105 ∷ 100 ∷ 101 ∷ 111 ∷ [], sub)
              ∷ (110 ∷ 102 ∷ 108 ∷ 120 ∷ 105 ∷ 109 ∷ 103 ∷ [], sub)
              ∷ [],
        )
    ∷
        -- github, githubusercontent
        (
          github,
          (103 ∷ 105 ∷ 116 ∷ 104 ∷ 117 ∷ 98 ∷ [], sub)
              ∷ (
                103 ∷ 105 ∷ 116 ∷ 104 ∷ 117 ∷ 98 ∷ 117 ∷ 115 ∷ 101 ∷ 114 ∷ 99 ∷ 111 ∷ 110 ∷ 116
                    ∷ 101 ∷ 110 ∷ 116 ∷ [],
                sub,
              )
              ∷ [],
        )
    ∷
        -- tiktok, tiktokcdn, musical.ly, bytedance
        (
          tiktok,
          (116 ∷ 105 ∷ 107 ∷ 116 ∷ 111 ∷ 107 ∷ [], sub)
              ∷ (116 ∷ 105 ∷ 107 ∷ 116 ∷ 111 ∷ 107 ∷ 99 ∷ 100 ∷ 110 ∷ [], sub)
              ∷ (109 ∷ 117 ∷ 115 ∷ 105 ∷ 99 ∷ 97 ∷ 108 ∷ 46 ∷ 108 ∷ 121 ∷ [], dom)
              ∷ (98 ∷ 121 ∷ 116 ∷ 101 ∷ 100 ∷ 97 ∷ 110 ∷ 99 ∷ 101 ∷ [], sub)
              ∷ [],
        )
    ∷
        -- telegram, t.me
        (
          telegram,
          (116 ∷ 101 ∷ 108 ∷ 101 ∷ 103 ∷ 114 ∷ 97 ∷ 109 ∷ [], sub)
              ∷ (116 ∷ 46 ∷ 109 ∷ 101 ∷ [], dom)
              ∷ [],
        )
    ∷
        -- spotify, scdn.co
        (
          spotify,
          (115 ∷ 112 ∷ 111 ∷ 116 ∷ 105 ∷ 102 ∷ 121 ∷ [], sub)
              ∷ (115 ∷ 99 ∷ 100 ∷ 110 ∷ 46 ∷ 99 ∷ 111 ∷ [], dom)
              ∷ [],
        )
    ∷
        -- discord, discordapp
        (
          discord,
          (100 ∷ 105 ∷ 115 ∷ 99 ∷ 111 ∷ 114 ∷ 100 ∷ [], sub)
              ∷ (100 ∷ 105 ∷ 115 ∷ 99 ∷ 111 ∷ 114 ∷ 100 ∷ 97 ∷ 112 ∷ 112 ∷ [], sub)
              ∷ [],
        )
    ∷
        -- zoom
        (zoom, (122 ∷ 111 ∷ 111 ∷ 109 ∷ [], lbl) ∷ [])
    ∷
        -- twitter, twimg, x.com, t.co
        (
          twitter,
          (116 ∷ 119 ∷ 105 ∷ 116 ∷ 116 ∷ 101 ∷ 114 ∷ [], sub)
              ∷ (116 ∷ 119 ∷ 105 ∷ 109 ∷ 103 ∷ [], sub)
              ∷ (120 ∷ 46 ∷ 99 ∷ 111 ∷ 109 ∷ [], dom)
              ∷ (116 ∷ 46 ∷ 99 ∷ 111 ∷ [], dom)
              ∷ [],
        )
    ∷
        -- google, gstatic, googleapis, ggpht, gvt1
        (
          google,
          (103 ∷ 111 ∷ 111 ∷ 103 ∷ 108 ∷ 101 ∷ [], sub)
              ∷ (103 ∷ 115 ∷ 116 ∷ 97 ∷ 116 ∷ 105 ∷ 99 ∷ [], sub)
              ∷ (103 ∷ 111 ∷ 111 ∷ 103 ∷ 108 ∷ 101 ∷ 97 ∷ 112 ∷ 105 ∷ 115 ∷ [], sub)
              ∷ (103 ∷ 103 ∷ 112 ∷ 104 ∷ 116 ∷ [], sub)
              ∷ (103 ∷ 118 ∷ 116 ∷ 49 ∷ [], sub)
              ∷ [],
        )
    ∷
        -- amazon, amazonaws, cloudfront, aws
        (
          amazon,
          (97 ∷ 109 ∷ 97 ∷ 122 ∷ 111 ∷ 110 ∷ [], sub)
              ∷ (97 ∷ 109 ∷ 97 ∷ 122 ∷ 111 ∷ 110 ∷ 97 ∷ 119 ∷ 115 ∷ [], sub)
              ∷ (99 ∷ 108 ∷ 111 ∷ 117 ∷ 100 ∷ 102 ∷ 114 ∷ 111 ∷ 110 ∷ 116 ∷ [], sub)
              ∷ (97 ∷ 119 ∷ 115 ∷ [], lbl)
              ∷ [],
        )
    ∷
        -- microsoft, msn.com, office, azure, live.com, outlook, bing
        (
          microsoft,
          (109 ∷ 105 ∷ 99 ∷ 114 ∷ 111 ∷ 115 ∷ 111 ∷ 102 ∷ 116 ∷ [], sub)
              ∷ (109 ∷ 115 ∷ 110 ∷ 46 ∷ 99 ∷ 111 ∷ 109 ∷ [], dom)
              ∷ (111 ∷ 102 ∷ 102 ∷ 105 ∷ 99 ∷ 101 ∷ [], pfx)
              ∷ (97 ∷ 122 ∷ 117 ∷ 114 ∷ 101 ∷ [], sub)
              ∷ (108 ∷ 105 ∷ 118 ∷ 101 ∷ 46 ∷ 99 ∷ 111 ∷ 109 ∷ [], dom)
              ∷ (111 ∷ 117 ∷ 116 ∷ 108 ∷ 111 ∷ 111 ∷ 107 ∷ [], sub)
              ∷ (98 ∷ 105 ∷ 110 ∷ 103 ∷ [], lbl)
              ∷ [],
        )
    ∷
        -- apple, icloud, mzstatic, itunes
        (
          apple,
          (97 ∷ 112 ∷ 112 ∷ 108 ∷ 101 ∷ [], lbl)
              ∷ (105 ∷ 99 ∷ 108 ∷ 111 ∷ 117 ∷ 100 ∷ [], sub)
              ∷ (109 ∷ 122 ∷ 115 ∷ 116 ∷ 97 ∷ 116 ∷ 105 ∷ 99 ∷ [], sub)
              ∷ (105 ∷ 116 ∷ 117 ∷ 110 ∷ 101 ∷ 115 ∷ [], sub)
              ∷ [],
        )
    ∷
        -- cloudflare, cf-
        (
          cloudflare,
          (99 ∷ 108 ∷ 111 ∷ 117 ∷ 100 ∷ 102 ∷ 108 ∷ 97 ∷ 114 ∷ 101 ∷ [], sub)
              ∷ (99 ∷ 102 ∷ 45 ∷ [], pfx)
              ∷ [],
        )
    ∷ []

unfoldable pub sni_to_app_type : List ℕ → AppType
unfolding first_match lower
sni_to_app_type [] = unknown
sni_to_app_type (c ∷ sni) = first_match (lower (c ∷ sni)) sni_patterns
