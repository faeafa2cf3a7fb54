-- ===== src/Server/Tests.antt =====
-- The routing at concrete requests, and the theorems there.
use hooklens.Base.{
  List, ◌≡◌, refl, true, [], ◌∷◌, Bytes, codes, bytes_eq, cut_prefix, cut_suffix, cut, trim_space,
  to_lower, trim_suffix_byte, none,
}
use hooklens.Server.Net.{split_host_port}
use hooklens.Server.Events.{Write, event_of, comment_of, split_lines, stream, consume}
use hooklens.Server.Events.Roundtrip.{well_formed, events_of, consume-stream}
use hooklens.Server.Routing.{
  target_app, is_reserved, valid_slug, split_path_form, normalize_host, resolve_host, resolve,
}
use hooklens.Server.Routing.Laws.{inbox}
use hooklens.Server.Routing.Hosts.{resolve_subdomain}

program : Unit {0}
unfolding bytes_eq cut_prefix cut_suffix cut trim_space to_lower trim_suffix_byte split_host_port
    is_reserved valid_slug split_path_form normalize_host resolve_host resolve
program = tt

-- No text here is outside ASCII.
abbrev same : Bytes → Bytes
same s = s

abbrev base : Bytes
base = codes "hooklens.dev"

abbrev slug : Bytes
slug = codes "a7f3"

valid : valid_slug slug ≡ true
unfolding program
valid = refl

with_port : normalize_host same (codes " A7F3.Hooklens.dev.:8080") ≡ codes "a7f3.hooklens.dev"
unfolding program
with_port = refl

nested : (resolve same base (codes "a.b.hooklens.dev") (codes "/x")).target ≡ target_app
unfolding program
nested = refl

-- A port and capitals are normalized away.
normalized :
    resolve same base (codes "A7F3.hooklens.dev:443") (codes "/hook") ≡ inbox slug (codes "/hook")
unfolding program
normalized = refl

not_path_form : split_path_form (codes "/hook") ≡ none
unfolding program
not_path_form = refl

undotted : trim_suffix_byte base b'.' ≡ base
unfolding program
undotted = refl

resolve_subdomain_example :
    resolve same base (codes "a7f3.hooklens.dev") (codes "/hook") ≡ inbox slug (codes "/hook")
resolve_subdomain_example =
    resolve_subdomain same slug (codes "/hook") b'h' (codes "ooklens.dev") valid refl undotted
      not_path_form

-- A stream of one event of two lines, one keepalive and one event more.
abbrev writes : List Write
writes =
    event_of (codes "capture") (97 ∷ 10 ∷ 98 ∷ [])
    ∷ comment_of (codes "keepalive")
    ∷ event_of (codes "dropped") (codes "{}")
    ∷ []

writes-fit : well_formed writes ≡ true
unfolding well_formed
writes-fit = refl

consume-stream_example : consume (split_lines (stream writes)) [] [] ≡ events_of writes
consume-stream_example = consume-stream writes writes-fit
