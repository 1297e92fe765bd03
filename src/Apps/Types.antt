-- ===== src/Apps/Types.antt =====
-- AppType of dpi/types.py with its values and its display names. A string literal is written as its
-- code points, with the string in a comment.
use python_deep_packet_inspe.Prelude.{ℕ, Bool, List, [], ◌∷◌, ◌==◌}

pub data AppType : Type 0 where
  unknown http https dns tls quic google facebook youtube twitter instagram netflix amazon microsoft
        apple whatsapp telegram tiktok spotify zoom discord github cloudflare app_count :
      AppType

-- The value of the enumeration.
unfoldable pub app_code : AppType → ℕ
app_code unknown = 0
app_code http = 1
app_code https = 2
app_code dns = 3
app_code tls = 4
app_code quic = 5
app_code google = 6
app_code facebook = 7
app_code youtube = 8
app_code twitter = 9
app_code instagram = 10
app_code netflix = 11
app_code amazon = 12
app_code microsoft = 13
app_code apple = 14
app_code whatsapp = 15
app_code telegram = 16
app_code tiktok = 17
app_code spotify = 18
app_code zoom = 19
app_code discord = 20
app_code github = 21
app_code cloudflare = 22
app_code app_count = 23

-- `==` on the enumeration, which is by value.
unfoldable pub same_app : AppType → AppType → Bool
unfolding app_code
same_app a b = app_code a == app_code b

-- The display name.
unfoldable pub app_type_to_string : AppType → List ℕ
-- Unknown
app_type_to_string unknown = 85 ∷ 110 ∷ 107 ∷ 110 ∷ 111 ∷ 119 ∷ 110 ∷ []
-- HTTP
app_type_to_string http = 72 ∷ 84 ∷ 84 ∷ 80 ∷ []
-- HTTPS
app_type_to_string https = 72 ∷ 84 ∷ 84 ∷ 80 ∷ 83 ∷ []
-- DNS
app_type_to_string dns = 68 ∷ 78 ∷ 83 ∷ []
-- TLS
app_type_to_string tls = 84 ∷ 76 ∷ 83 ∷ []
-- QUIC
app_type_to_string quic = 81 ∷ 85 ∷ 73 ∷ 67 ∷ []
-- Google
app_type_to_string google = 71 ∷ 111 ∷ 111 ∷ 103 ∷ 108 ∷ 101 ∷ []
-- Facebook
app_type_to_string facebook = 70 ∷ 97 ∷ 99 ∷ 101 ∷ 98 ∷ 111 ∷ 111 ∷ 107 ∷ []
-- YouTube
app_type_to_string youtube = 89 ∷ 111 ∷ 117 ∷ 84 ∷ 117 ∷ 98 ∷ 101 ∷ []
-- Twitter/X
app_type_to_string twitter = 84 ∷ 119 ∷ 105 ∷ 116 ∷ 116 ∷ 101 ∷ 114 ∷ 47 ∷ 88 ∷ []
-- Instagram
app_type_to_string instagram = 73 ∷ 110 ∷ 115 ∷ 116 ∷ 97 ∷ 103 ∷ 114 ∷ 97 ∷ 109 ∷ []
-- Netflix
app_type_to_string netflix = 78 ∷ 101 ∷ 116 ∷ 102 ∷ 108 ∷ 105 ∷ 120 ∷ []
-- Amazon
app_type_to_string amazon = 65 ∷ 109 ∷ 97 ∷ 122 ∷ 111 ∷ 110 ∷ []
-- Microsoft
app_type_to_string microsoft = 77 ∷ 105 ∷ 99 ∷ 114 ∷ 111 ∷ 115 ∷ 111 ∷ 102 ∷ 116 ∷ []
-- Apple
app_type_to_string apple = 65 ∷ 112 ∷ 112 ∷ 108 ∷ 101 ∷ []
-- WhatsApp
app_type_to_string whatsapp = 87 ∷ 104 ∷ 97 ∷ 116 ∷ 115 ∷ 65 ∷ 112 ∷ 112 ∷ []
-- Telegram
app_type_to_string telegram = 84 ∷ 101 ∷ 108 ∷ 101 ∷ 103 ∷ 114 ∷ 97 ∷ 109 ∷ []
-- TikTok
app_type_to_string tiktok = 84 ∷ 105 ∷ 107 ∷ 84 ∷ 111 ∷ 107 ∷ []
-- Spotify
app_type_to_string spotify = 83 ∷ 112 ∷ 111 ∷ 116 ∷ 105 ∷ 102 ∷ 121 ∷ []
-- Zoom
app_type_to_string zoom = 90 ∷ 111 ∷ 111 ∷ 109 ∷ []
-- Discord
app_type_to_string discord = 68 ∷ 105 ∷ 115 ∷ 99 ∷ 111 ∷ 114 ∷ 100 ∷ []
-- GitHub
app_type_to_string github = 71 ∷ 105 ∷ 116 ∷ 72 ∷ 117 ∷ 98 ∷ []
-- Cloudflare
app_type_to_string cloudflare = 67 ∷ 108 ∷ 111 ∷ 117 ∷ 100 ∷ 102 ∷ 108 ∷ 97 ∷ 114 ∷ 101 ∷ []
-- Unknown
app_type_to_string app_count = 85 ∷ 110 ∷ 107 ∷ 110 ∷ 111 ∷ 119 ∷ 110 ∷ []
