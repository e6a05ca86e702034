-- ===== src/Control/Paging.antt =====
-- The export of apps/gateway/src/control.ts reads the log page by page and misses nothing.
use mathlib.Core.List.{append-nil}
use deepseek_harness_gateway.Common.{
  ℕ, zero, suc, ◌+◌, ◌-◌, ◌≤◌, ◌<◌, ◌≡◌, refl, sym, ap, ◌∙◌, min, List, [], ◌∷◌, ◌++◌, map, nat_eq,
  ltb, arith, Bool-cases, inl, inr,
}
use deepseek_harness_gateway.Common.Text.{Text}
use deepseek_harness_gateway.Common.Lists.{
  length, take, drop, filter, length-take, length-drop, count-le-length, length-filter,
}
use deepseek_harness_gateway.Common.Sort.{sort, length-sort}
use deepseek_harness_gateway.Store.Domain.{Store, AuditEvent}
use deepseek_harness_gateway.Store.Audit.{AuditQueryOptions, matches, ts_lt, query_audit}
use deepseek_harness_gateway.Control.Exports.{
  Format, line_of, header_of, page_of, audit_page_max, stream_pages, stream_audit_lines,
}

take_all : (n : ℕ) (xs : List AuditEvent) → length xs ≤ n → take n xs ≡ xs
take_all zero [] h = refl
take_all zero (x ∷ xs) h = absurd (omega arith)
take_all (suc n) [] h = refl
take_all (suc n) (x ∷ xs) h = ap (λ l. x ∷ l) (take_all n xs (omega arith))

nothing_left : (xs : List AuditEvent) → length xs ≡ 0 → xs ≡ []
nothing_left [] h = refl
nothing_left (x ∷ xs) h = absurd (omega arith)

drop_none : (n : ℕ) → drop {A = AuditEvent} n [] ≡ []
drop_none zero = refl
drop_none (suc n) = refl

drop-drop : (n m : ℕ) (xs : List AuditEvent) → drop n (drop m xs) ≡ drop (m + n) xs
drop-drop n zero xs = ap (λ k. drop k xs) (omega arith)
drop-drop n (suc m) [] = drop_none n ∙ sym (drop_none (suc m + n))
drop-drop n (suc m) (x ∷ xs) =
    let e : suc m + n ≡ suc (m + n) = omega arith in
    drop-drop n m xs ∙ ap (λ k. drop k (x ∷ xs)) (sym e)

map_pages :
    (f : AuditEvent → Text) (n : ℕ) (xs : List AuditEvent)
    → map f (take n xs) ++ map f (drop n xs) ≡ map f xs
map_pages f zero xs = refl
map_pages f (suc n) [] = refl
map_pages f (suc n) (x ∷ xs) = ap (λ l. f x ∷ l) (map_pages f n xs)

-- All that a query matches, in order of time.
abbrev pub all_of : AuditQueryOptions → Store → List AuditEvent
all_of opts s = sort ts_lt (filter (matches opts) s.audit)

page_is :
    (opts : AuditQueryOptions) (n off : ℕ) (s : Store)
    → page_of opts n off s ≡ take n (drop off (all_of opts s))
unfolding query_audit matches
page_is opts n off s = refl

-- The pages from one on, for any size of page.
pages_all :
    (pages n : ℕ) (format : Format) (opts : AuditQueryOptions) (off : ℕ) (s : Store)
    → 0 < n
    → length (all_of opts s) < off + pages
    → stream_pages pages n format opts off s ≡ map (line_of format) (drop off (all_of opts s))
unfolding stream_pages
pages_all zero n format opts off s some_room h =
    rw (nothing_left (drop off (all_of opts s)) (length-drop off (all_of opts s) ∙ omega arith))
      refl
pages_all (suc pages) n format opts off s some_room h =
    let left : List AuditEvent = drop off (all_of opts s) in
    let size : length (take n left) ≡ min n (length left) = length-take n left in
    let size' : length left ≡ length (all_of opts s) - off = length-drop off (all_of opts s) in
    rw (page_is opts n off s) (elim (Bool-cases (nat_eq (length (take n left)) 0)) [
      | inl none_here ↦
          let empty : left ≡ [] = nothing_left left (ground arith) in
          rw none_here (ap (map (line_of format)) (sym empty))
      | inr some_here ↦ rw some_here (elim (Bool-cases (ltb (length (take n left)) n)) [
        | inl short ↦
            let whole : take n left ≡ left = take_all n left (ground arith) in
            rw short
              (append-nil (map (line_of format) (take n left)) ∙ ap (map (line_of format)) whole)
        | inr full ↦
            let step : length (take n left) ≡ n = ground arith in
            let rest =
              pages_all pages n format opts (off + length (take n left)) s some_room
                (omega arith) in
            let next : drop (off + length (take n left)) (all_of opts s) ≡ drop n left =
              ap (λ k. drop (off + k) (all_of opts s)) step
              ∙ sym (drop-drop n off (all_of opts s)) in
            rw full (
              ap (λ z. map (line_of format) (take n left) ++ z)
                (rest ∙ ap (map (line_of format)) next)
              ∙ map_pages (line_of format) n left)
      ])
    ])

-- An export is the header of its format and then one line for each event that the query matches, in
-- order of time, each once: the pages neither skip nor repeat an event, however many there are.
pub stream_audit_lines_complete :
    (format : Format) (opts : AuditQueryOptions) (s : Store)
    → stream_audit_lines format opts s ≡ header_of format ++ map (line_of format) (all_of opts s)
unfolding stream_audit_lines
stream_audit_lines_complete format opts s =
    let fits : length (all_of opts s) < 0 + suc (length s.audit) = omega (
      arith,
      length-sort ts_lt (filter (matches opts) s.audit),
      length-filter (matches opts) s.audit,
      count-le-length (matches opts) s.audit,
    ) in
    ap (λ z. header_of format ++ z)
      (pages_all (suc (length s.audit)) audit_page_max format opts 0 s (omega arith) fits)
