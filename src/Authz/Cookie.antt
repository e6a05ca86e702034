-- ===== src/Authz/Cookie.antt =====
-- The cookie reader of apps/gateway/src/authz.ts against the way browsers write the header.
use deepseek_harness_gateway.Common.{
  ℕ, ◌≡◌, refl, ap, ◌∙◌, Bool, true, false, Option, none, some, List, [], ◌∷◌, ◌++◌, ◌≢◌, ◌==◌,
  if◌then◌else◌, arith,
}
use deepseek_harness_gateway.Common.Text.{Text, Eq-text}
use deepseek_harness_gateway.Common.Lists.{All}
use deepseek_harness_gateway.Common.Dict.{Dict, get}
use deepseek_harness_gateway.Common.Split.{
  split_on, cut_at, includes, trim, split_on-free, split_on-append, cut_at-append, includes-append,
  trim_space,
}
use deepseek_harness_gateway.Authz.{find_cookie, get_cookie}

-- `a=1`
abbrev pub pair_text : Text × Text → Text
pair_text (name, value) = name ++ 61 ∷ value

-- ` b=2; c=3`, each pair after a space
abbrev pub pairs_text : Text × Text → Dict Text Text → Text
pairs_text c [] = pair_text c
pairs_text c (d ∷ cs) = pair_text c ++ 59 ∷ 32 ∷ pairs_text d cs

-- The header that a browser sends for its cookies.
abbrev pub header_text : Dict Text Text → Option Text
header_text [] = none
header_text (c ∷ cs) = some (pairs_text c cs)

-- No semicolon, no equals sign in the name, no white space around either.
pub record CookieOk (c : Text × Text) : Type 0 where
  pub name_part : includes 59 c.0 ≡ false
  pub name_cut : includes 61 c.0 ≡ false
  pub value_part : includes 59 c.1 ≡ false
  pub name_trimmed : trim c.0 ≡ c.0
  pub value_trimmed : trim c.1 ≡ c.1

part_free : (c : Text × Text) → CookieOk c → includes 59 (pair_text c) ≡ false
unfolding includes
part_free c k = includes-append 59 c.0 (61 ∷ c.1) ∙ ground (arith, k.name_part, k.value_part)

-- the space before every pair but the first
abbrev lead : Bool → Text → Text
lead false s = s
lead true s = 32 ∷ s

trim-lead : (b : Bool) (s : Text) → trim (lead b s) ≡ trim s
trim-lead false s = refl
trim-lead true s = trim_space s

lead_free :
    (b : Bool) (k : ℕ) (s : Text) → k ≢ 32 → includes k s ≡ false → includes k (lead b s) ≡ false
unfolding includes
lead_free false k s n h = h
lead_free true k s n h = ground (arith, h)

lead-append : (b : Bool) (s t : Text) → lead b (s ++ t) ≡ lead b s ++ t
lead-append false s t = refl
lead-append true s t = refl

-- The first piece is read as the pair that was written.
find-part :
    (b : Bool) (name : Text) (c : Text × Text) (parts : List Text)
    → CookieOk c
    → find_cookie (lead b (pair_text c) ∷ parts) name
      ≡ (if c.0 == name then some c.1 else find_cookie parts name)
unfolding find_cookie
find-part b name c parts k =
    let cut : cut_at 61 (lead b (pair_text c)) ≡ some (lead b c.0, c.1) =
      ap (cut_at 61) (lead-append b c.0 (61 ∷ c.1))
      ∙ cut_at-append 61 (lead b c.0) c.1 (lead_free b 61 c.0 (λ e. omega arith) k.name_cut) in
    ground (arith, cut, trim-lead b c.0, k.name_trimmed, k.value_trimmed)

find-pairs :
    (b : Bool) (name : Text) (c : Text × Text) (cs : Dict Text Text)
    → CookieOk c
    → All CookieOk cs
    → find_cookie (split_on 59 (lead b (pairs_text c cs))) name ≡ get name (c ∷ cs)
unfolding get find_cookie
find-pairs b name c [] k ks =
    ap (λ z. find_cookie z name)
      (split_on-free 59 (lead b (pair_text c))
        (lead_free b 59 (pair_text c) (λ e. omega arith) (part_free c k)))
    ∙ find-part b name c [] k
find-pairs b name c (d ∷ cs) k (kd, ks) =
    let free = lead_free b 59 (pair_text c) (λ e. omega arith) (part_free c k) in
    let rest = find-pairs true name d cs kd ks in
    ap (λ z. find_cookie z name)
      (ap (split_on 59) (lead-append b (pair_text c) (59 ∷ 32 ∷ pairs_text d cs))
        ∙ split_on-append 59 (lead b (pair_text c)) (32 ∷ pairs_text d cs) free)
    ∙ find-part b name c (split_on 59 (32 ∷ pairs_text d cs)) k
    ∙ ap (λ z. if c.0 == name then some c.1 else z) rest

-- From the header that a browser writes for its cookies, `getCookie` reads the value of the first
-- cookie of a name, and nothing for a name that no cookie has.
pub get_cookie-header :
    (name : Text) (cs : Dict Text Text)
    → All CookieOk cs
    → get_cookie (header_text cs) name ≡ get name cs
unfolding get_cookie get find_cookie
get_cookie-header name [] ks = refl
get_cookie-header name (([], v) ∷ []) (k, ks) = find-pairs false name ([], v) [] k ks
get_cookie-header name (([], v) ∷ d ∷ cs) (k, ks) = find-pairs false name ([], v) (d ∷ cs) k ks
get_cookie-header name ((x ∷ n, v) ∷ []) (k, ks) = find-pairs false name (x ∷ n, v) [] k ks
get_cookie-header name ((x ∷ n, v) ∷ d ∷ cs) (k, ks) =
    find-pairs false name (x ∷ n, v) (d ∷ cs) k ks
