-- ===== src/Platform/Web.antt =====
-- httpsupport.AddTrailingSlashToURL and ReplaceDomainPrefix of fabric8-common, and net/url.
use fabric8_cluster.Common.{String, false, ◌≡◌, is_blank}
use fabric8_cluster.Errors.{Result}

-- The fields of Go's url.URL.
pub record Url : Type 0 where
  pub scheme : String
  pub opaque : String
  pub user : String
  pub host : String
  pub path : String
  pub raw_path : String
  pub raw_query : String
  pub fragment : String

-- What `url.Parse` gives: a URL, or an error with its text.
pub data Parsed : Type 0 where
  parsed : Url → Parsed
  malformed : String → Parsed

pub record Urls : Type 0 where
  pub add_trailing_slash : String → String
  pub replace_domain_prefix : String → String → Result String
  pub parse : String → Parsed
  pub url_string : Url → String

-- A slash is added only where it is missing, and an added slash is no white space.
pub record IsLawful (U : Urls) : Type 0 where
  pub add_trailing_slash_idem :
      (s : String) → U.add_trailing_slash (U.add_trailing_slash s) ≡ U.add_trailing_slash s
  pub add_trailing_slash_shown :
      (s : String) → is_blank s ≡ false → is_blank (U.add_trailing_slash s) ≡ false
