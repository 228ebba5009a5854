-- ===== src/Tests/Redirects.antt =====
-- Tests of Fetch.Redirects and Fetch.RedirectController.
use aedifex.Prelude.{◌≡◌, refl, false, none, some, Option, [], ◌∷◌, ◌==◌, if◌then◌else◌, length}
use aedifex.Prelude.Text.{Text, codes, text_eq, strip, lower, contains}
use aedifex.Fetch.Redirects.{RedirectPolicy, evaluate, leaves_https, follow, reject}
use aedifex.Fetch.Redirects.Verdict.{Judged, evaluate-Judged}
use aedifex.Fetch.RedirectController.{
  ValidatedTarget, Request, answered, Environment, crosses_host, next_request, fetch,
}

abbrev first_url : Text
first_url = codes "https://a.in/x"

abbrev moved_url : Text
moved_url = codes "https://b.in/y"

abbrev strict : RedirectPolicy
strict = record { max_hops = 5; allow_transport_downgrade = false }

-- locations that are absolute already
abbrev as_is : Text → Text → Option Text
as_is base location = some location

evaluate-Judged_example :
    Judged strict 302
      (codes "https")
      (first_url ∷ [])
      (evaluate as_is strict 302 (some moved_url) first_url (codes "https") (first_url ∷ []))
evaluate-Judged_example =
    evaluate-Judged as_is strict 302 (codes "https") (first_url ∷ []) (some moved_url) first_url

follows :
    (evaluate as_is strict 302 (some moved_url) first_url (codes "https") (first_url ∷ [])).outcome
    ≡ follow
unfolding evaluate leaves_https text_eq strip lower contains
follows = refl

refuses_downgrade :
    (evaluate as_is strict 302
      (some (codes "http://a.in/"))
      first_url
      (codes "https")
      (first_url ∷ [])).outcome
    ≡ reject
unfolding evaluate leaves_https text_eq strip lower contains
refuses_downgrade = refl

abbrev target_at : Text → Option ValidatedTarget
target_at url = some (record {
  url = url;
  scheme = codes "https";
  hostname = if text_eq url first_url then codes "a.in" else codes "b.in";
})

abbrev moves_once : Environment
moves_once = record {
  validate = target_at;
  perform = λ n target request. if n == 0 then answered 302 (some moved_url) else answered 200 none;
  host_of = λ url. if text_eq url first_url then some (codes "a.in") else some (codes "b.in");
  urljoin = as_is;
}

abbrev keyed : Request
keyed = record { method = codes "POST"; headers = some (codes "Key: 1"); body = some (codes "q") }

asks_twice : length (fetch moves_once strict first_url keyed).1.sent ≡ 2
unfolding fetch crosses_host next_request evaluate leaves_https text_eq strip lower contains
asks_twice = refl
