-- ===== src/Apps/Codes.antt =====
-- `AppType` of dpi/types.py is told apart by its values.
use python_deep_packet_inspe.Prelude.{ℕ, ◌≡◌, refl, sym, ap, ◌∙◌, true, arith, ◌==◌, if◌then◌else◌}
use python_deep_packet_inspe.Apps.{
  http, dns, tls, quic, google, facebook, youtube, twitter, instagram, netflix, amazon, microsoft,
  apple, whatsapp, telegram, tiktok, spotify, zoom, discord, github, cloudflare, app_count, AppType,
  unknown, https, app_code, same_app,
}

-- The application of a value of the enumeration.
of_code : ℕ → AppType
of_code n =
    if n == 0
    then unknown
    else if n == 1
    then http
    else if n == 2
    then https
    else if n == 3
    then dns
    else if n == 4
    then tls
    else if n == 5
    then quic
    else if n == 6
    then google
    else if n == 7
    then facebook
    else if n == 8
    then youtube
    else if n == 9
    then twitter
    else if n == 10
    then instagram
    else if n == 11
    then netflix
    else if n == 12
    then amazon
    else if n == 13
    then microsoft
    else if n == 14
    then apple
    else if n == 15
    then whatsapp
    else if n == 16
    then telegram
    else if n == 17
    then tiktok
    else if n == 18
    then spotify
    else if n == 19
    then zoom
    else if n == 20
    then discord
    else if n == 21
    then github
    else if n == 22
    then cloudflare
    else app_count

of_code-app_code : (a : AppType) → of_code (app_code a) ≡ a
unfolding of_code app_code
of_code-app_code unknown = refl
of_code-app_code http = refl
of_code-app_code https = refl
of_code-app_code dns = refl
of_code-app_code tls = refl
of_code-app_code quic = refl
of_code-app_code google = refl
of_code-app_code facebook = refl
of_code-app_code youtube = refl
of_code-app_code twitter = refl
of_code-app_code instagram = refl
of_code-app_code netflix = refl
of_code-app_code amazon = refl
of_code-app_code microsoft = refl
of_code-app_code apple = refl
of_code-app_code whatsapp = refl
of_code-app_code telegram = refl
of_code-app_code tiktok = refl
of_code-app_code spotify = refl
of_code-app_code zoom = refl
of_code-app_code discord = refl
of_code-app_code github = refl
of_code-app_code cloudflare = refl
of_code-app_code app_count = refl

pub same_app_refl : (a : AppType) → same_app a a ≡ true
unfolding same_app
same_app_refl a = ground arith

pub same_app→eq : (a b : AppType) → same_app a b ≡ true → a ≡ b
unfolding same_app
same_app→eq a b h = sym (of_code-app_code a) ∙ ap of_code (ground (arith, h)) ∙ of_code-app_code b
