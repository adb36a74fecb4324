-- ===== src/Config/CustomApi.antt =====
-- src/config/custom_api.rs: a translation service that the user describes.
use anemone_rs.Base.{Bool, ◌&&◌, [], ◌∷◌, Text, text_eq}

pub record CustomApiConfig : Type 0 where
  pub name : Text
  pub url : Text
  pub api_key : Text
  pub auth_header : Text
  pub auth_scheme : Text
  pub headers : Text
  pub request_template : Text
  pub response_path : Text

-- 'Custom'
abbrev pub default_name : Text
default_name = 67 ∷ 117 ∷ 115 ∷ 116 ∷ 111 ∷ 109 ∷ []

-- 'Authorization'
abbrev pub default_auth_header : Text
default_auth_header = 65 ∷ 117 ∷ 116 ∷ 104 ∷ 111 ∷ 114 ∷ 105 ∷ 122 ∷ 97 ∷ 116 ∷ 105 ∷ 111 ∷ 110 ∷ []

-- 'Bearer'
abbrev pub default_auth_scheme : Text
default_auth_scheme = 66 ∷ 101 ∷ 97 ∷ 114 ∷ 101 ∷ 114 ∷ []

-- '{}'
abbrev pub default_headers : Text
default_headers = 123 ∷ 125 ∷ []

-- '{"text":"{text}","source":"{source}","target":"{target}"}'
abbrev pub default_request_template : Text
default_request_template =
    123 ∷ 34 ∷ 116 ∷ 101 ∷ 120 ∷ 116 ∷ 34 ∷ 58 ∷ 34 ∷ 123 ∷ 116 ∷ 101 ∷ 120 ∷ 116 ∷ 125 ∷ 34 ∷ 44
    ∷ 34 ∷ 115 ∷ 111 ∷ 117 ∷ 114 ∷ 99 ∷ 101 ∷ 34 ∷ 58 ∷ 34 ∷ 123 ∷ 115 ∷ 111 ∷ 117 ∷ 114 ∷ 99 ∷ 101
    ∷ 125 ∷ 34 ∷ 44 ∷ 34 ∷ 116 ∷ 97 ∷ 114 ∷ 103 ∷ 101 ∷ 116 ∷ 34 ∷ 58 ∷ 34 ∷ 123 ∷ 116 ∷ 97 ∷ 114
    ∷ 103 ∷ 101 ∷ 116 ∷ 125 ∷ 34 ∷ 125 ∷ []

-- 'translatedText'
abbrev pub default_response_path : Text
default_response_path =
    116 ∷ 114 ∷ 97 ∷ 110 ∷ 115 ∷ 108 ∷ 97 ∷ 116 ∷ 101 ∷ 100 ∷ 84 ∷ 101 ∷ 120 ∷ 116 ∷ []

abbrev pub default_custom : CustomApiConfig
default_custom = record {
  name = default_name;
  url = [];
  api_key = [];
  auth_header = default_auth_header;
  auth_scheme = default_auth_scheme;
  headers = default_headers;
  request_template = default_request_template;
  response_path = default_response_path;
}

-- The derived `==`.
unfoldable pub custom_eq : CustomApiConfig → CustomApiConfig → Bool
custom_eq a b =
    text_eq a.name b.name
    && text_eq a.url b.url
    && text_eq a.api_key b.api_key
    && text_eq a.auth_header b.auth_header
    && text_eq a.auth_scheme b.auth_scheme
    && text_eq a.headers b.headers
    && text_eq a.request_template b.request_template
    && text_eq a.response_path b.response_path

unfoldable pub is_default : CustomApiConfig → Bool
is_default c = custom_eq c default_custom
