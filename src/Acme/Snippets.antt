-- ===== src/Acme/Snippets.antt =====
-- internal/app/snippets.go: the commands and configurations for ACME clients.
use step_ui_ng.Base.{String, List, [], ◌∷◌, Bool, if◌then◌else◌, ◌==◌, string_eq}
use step_ui_ng.Base.Text.{concat}

-- `clientSnippet`
pub record ClientSnippet : Type 0 where
  pub client : String
  pub code : String

abbrev pub eab_key_id_placeholder : String
eab_key_id_placeholder = "<EAB_KEY_ID>"

abbrev pub eab_hmac_placeholder : String
eab_hmac_placeholder = "<EAB_HMAC>"

-- `certbotSnippet`
abbrev pub certbot_snippet : String → Bool → String → String → String
certbot_snippet dir eab kid mac = concat (
    "certbot certonly --standalone \\\n"
    ∷ "  --server "
    ∷ dir
    ∷ " \\\n"
    ∷ (if eab
        then concat ("  --eab-kid " ∷ kid ∷ " \\\n" ∷ "  --eab-hmac-key " ∷ mac ∷ " \\\n" ∷ [])
        else "")
    ∷ "  -d example.com"
    ∷ [])

-- `acmeShSnippet`
abbrev pub acme_sh_snippet : String → Bool → String → String → String
acme_sh_snippet dir eab kid mac = concat (
    "acme.sh --register-account --server "
    ∷ dir
    ∷ (if eab then concat (" \\\n  --eab-kid " ∷ kid ∷ " --eab-hmac-key " ∷ mac ∷ []) else "")
    ∷ "\n"
    ∷ "acme.sh --issue --server "
    ∷ dir
    ∷ " -d example.com --standalone"
    ∷ [])

-- `caddySnippet`
abbrev pub caddy_snippet : String → Bool → String → String → String
caddy_snippet dir eab kid mac = concat (
    "example.com {\n"
    ∷ "  tls {\n"
    ∷ "    issuer acme {\n"
    ∷ "      dir "
    ∷ dir
    ∷ "\n"
    ∷ (if eab then concat ("      eab " ∷ kid ∷ " " ∷ mac ∷ "\n" ∷ []) else "")
    ∷ "    }\n"
    ∷ "  }\n"
    ∷ "}"
    ∷ [])

-- `traefikSnippet`
abbrev pub traefik_snippet : String → Bool → String → String → String
traefik_snippet dir eab kid mac = concat (
    "# traefik static config (YAML)\n"
    ∷ "certificatesResolvers:\n"
    ∷ "  step:\n"
    ∷ "    acme:\n"
    ∷ "      caServer: "
    ∷ dir
    ∷ "\n"
    ∷ (if eab
        then concat (
            "      eab:\n" ∷ "        kid: " ∷ kid ∷ "\n" ∷ "        hmacEncoded: " ∷ mac ∷ "\n"
            ∷ [])
        else "")
    ∷ "      tlsChallenge: {}"
    ∷ [])

abbrev pub or_placeholder : String → String → String
or_placeholder s placeholder = if s == "" then placeholder else s

abbrev pub snippets_of : String → Bool → String → String → List ClientSnippet
snippets_of url eab kid mac =
    record { client = "certbot"; code = certbot_snippet url eab kid mac }
    ∷ record { client = "acme.sh"; code = acme_sh_snippet url eab kid mac }
    ∷ record { client = "Caddy"; code = caddy_snippet url eab kid mac }
    ∷ record { client = "Traefik"; code = traefik_snippet url eab kid mac }
    ∷ []

-- `buildSnippets`
unfoldable pub build_snippets : String → Bool → String → String → List ClientSnippet
build_snippets url require_eab key_id hmac =
    snippets_of url require_eab (or_placeholder key_id eab_key_id_placeholder)
      (or_placeholder hmac eab_hmac_placeholder)
