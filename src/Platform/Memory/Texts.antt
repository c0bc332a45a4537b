-- ===== src/Platform/Memory/Texts.antt =====
-- URLs as plain texts: a scheme, a host and a path, without user, query and fragment.
use Prim.Native.Char.{code}
use fabric8_cluster.Common.{
  ℕ, String, ◌<>◌, Bool, true, false, ◌≡◌, refl, ap, if◌then◌else◌, ◌==◌, nat_eq, string_eq,
  is_blank, is_space, arith, Bool-cases,
}
use fabric8_cluster.Errors.{Result, ok, err, bad_parameter_msg}
use fabric8_cluster.Platform.Web
use Web.{Urls, Url, Parsed, parsed, malformed}

-- Adds a slash unless `ends` and nothing follows, or the text ends with one.
abbrev pub slash_after : Bool → String → String
slash_after ends String.[] = if ends then "" else "/"
slash_after ends (String.◌∷◌ c s) = String.◌∷◌ c (slash_after (code c == 0x2f) s)

slash_after_idem :
    (ends : Bool) (s : String) → slash_after ends (slash_after ends s) ≡ slash_after ends s
unfolding nat_eq
slash_after_idem true String.[] = refl
slash_after_idem false String.[] = refl
slash_after_idem ends (String.◌∷◌ c s) = ap (String.◌∷◌ c) (slash_after_idem (code c == 0x2f) s)

slash_after-shown :
    (ends : Bool) (s : String) → is_blank s ≡ false → is_blank (slash_after ends s) ≡ false
unfolding is_blank
slash_after-shown ends String.[] e = absurd (cc)
slash_after-shown ends (String.◌∷◌ c s) e =
    ground (arith, slash_after-shown (code c == 0x2f) s, Bool-cases (is_space (code c)))

-- What stands before and after the first `sep`; nothing stands after it if it is missing.
abbrev pub before : ℕ → String → String
before sep String.[] = ""
before sep (String.◌∷◌ c s) =
    let rest = before sep s in if code c == sep then "" else String.◌∷◌ c rest

abbrev pub after : ℕ → String → String
after sep String.[] = ""
after sep (String.◌∷◌ c s) = let rest = after sep s in if code c == sep then s else rest

-- `scheme://host/path`, where a colon stands first only after a missing scheme.
abbrev pub parse : String → Parsed
parse s =
    if before 0x3a s == s
    then parsed (url_of "" "" s)
    else if before 0x3a s == ""
    then malformed "missing protocol scheme"
    else parsed (url_of (before 0x3a s) (before 0x2f rest) (after 0x2f rest))
  where
    rest : String
    rest = after 0x2f (after 0x2f s)

    url_of : String → String → String → Url
    url_of scheme host path = record {
      scheme = scheme;
      opaque = "";
      user = "";
      host = host;
      path = path;
      raw_path = "";
      raw_query = "";
      fragment = "";
    }

abbrev pub replace_domain_prefix : String → String → Result String
replace_domain_prefix host prefix =
    if before 0x2e host == host
    then err (bad_parameter_msg "unable to replace prefix: no domain")
    else ok (prefix <> "." <> after 0x2e host)

abbrev pub web : Urls
web = record {
  add_trailing_slash = slash_after true;
  replace_domain_prefix = replace_domain_prefix;
  parse = parse;
  url_string = λ u. u.scheme <> "://" <> u.host <> "/" <> u.path;
}

pub web-IsLawful : Web.IsLawful web
web-IsLawful = record {
  add_trailing_slash_idem = slash_after_idem true;
  add_trailing_slash_shown = slash_after-shown true;
}
