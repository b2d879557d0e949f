-- ===== src/Ice/Cloudflare/Filter.antt =====
-- Which addresses the filter leaves.
use go_signing_server_anywhe.Prelude.{
  String, ◌≡◌, refl, not, List, [], ◌∷◌, ◌++◌, nat_eq, int_eq, string_eq, keep, keep-append,
}
use go_signing_server_anywhe.Text.Case.{contains}
use go_signing_server_anywhe.Ice.Cloudflare.{expand_urls, filtered_row, filter_port53}
use go_signing_server_anywhe.Ice.Plan.Servers.{
  Urls, url, any_urls, string_urls, other_urls, ServerEntry,
}

-- The addresses of a row as they are written.
unfoldable pub written_urls : Urls → List String
written_urls (url u) = u ∷ []
written_urls (string_urls us) = us
written_urls (any_urls us) = []
written_urls other_urls = []

unfoldable pub all_written : List ServerEntry → List String
unfolding written_urls
all_written [] = []
all_written (e ∷ es) = written_urls e.urls ++ all_written es

unfoldable pub all_expanded : List ServerEntry → List String
all_expanded [] = []
all_expanded (e ∷ es) = expand_urls e.urls ++ all_expanded es

filtered_row-written :
    (e : ServerEntry) (us : List String) (es : List ServerEntry)
    → all_written (filtered_row e us ++ es) ≡ us ++ all_written es
unfolding filtered_row all_written written_urls
filtered_row-written e [] es = refl
filtered_row-written e (u ∷ []) es = refl
filtered_row-written e (u ∷ v ∷ us) es = refl

none_written : all_written [] ≡ keep (λ u. not (contains u ":53")) []
unfolding all_written keep
none_written = refl

-- The rows that are left hold exactly the addresses that do not contain `:53`, in their order,
-- trimmed where they came as one string or as a decoded list.
pub filter_port53-exact :
    (es : List ServerEntry)
    → all_written (filter_port53 es) ≡ keep (λ u. not (contains u ":53")) (all_expanded es)
unfolding filter_port53 all_expanded
filter_port53-exact [] = none_written
filter_port53-exact (e ∷ es) =
    rw
      (
        filtered_row-written e (keep (λ u. not (contains u ":53")) (expand_urls e.urls))
            (filter_port53 es),
        filter_port53-exact es,
        keep-append (λ u. not (contains u ":53")) (expand_urls e.urls) (all_expanded es),
      )
      refl
