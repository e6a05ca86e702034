-- ===== src/Router/Stream.antt =====
-- What apps/gateway/src/router.ts makes of a relayed response.
use deepseek_harness_gateway.Common.{
  ℕ, ◌+◌, ◌≤◌, ◌≡◌, refl, sym, ap, ◌∙◌, Bool, true, false, none, some, List, [], ◌∷◌, ◌++◌, map,
  le→ltb-false, ◌||◌, if◌then◌else◌, arith,
}
use mathlib.Core.List.{append-nil, append_assoc}
use deepseek_harness_gateway.Common.Text.{Text, text, text_eq, Eq-text}
use deepseek_harness_gateway.Common.Lists.{length}
use deepseek_harness_gateway.Common.Dict.{Dict, get, set, delete, get-set, get-delete}
use deepseek_harness_gateway.Router.{
  Output, write_head, write, end_body, Relay, new_relay, html_buffer_cap, is_html_for_injection,
  response_headers, on_response, on_data, on_end, on_chunks, no_store,
}

-- The headers that describe one hop.
abbrev pub is_hop : Text → Bool
is_hop k =
    text_eq (text "content-length") k
    || (text_eq (text "transfer-encoding") k || text_eq (text "connection") k)

abbrev pub is_validator : Text → Bool
is_validator k = text_eq (text "etag") k || text_eq (text "last-modified") k

get-response_headers :
    (k : Text) (headers : Dict Text Text)
    → get k (response_headers headers) ≡ (if is_hop k then none else get k headers)
unfolding response_headers
get-response_headers k headers =
    let shorter = delete (text "content-length") headers in
    let shortest = delete (text "transfer-encoding") shorter in
    ground (
      arith,
      get-delete (text "connection") k shortest,
      get-delete (text "transfer-encoding") k shorter,
      get-delete (text "content-length") k headers,
    )

module _ (decode : List ℕ → Text) (encode : Text → List ℕ) (inject : Text → Text) where
  abbrev streaming : List Output → Relay
  streaming os = record {
    html_buf = none;
    pending_status = 0;
    pending_headers = none;
    headers_sent = true;
    output = os;
  }

  streamed :
      (chunks : List (List ℕ)) (os : List Output)
      → (on_end decode encode inject (on_chunks decode encode chunks (streaming os))).output
        ≡ os ++ (map write chunks ++ end_body [] ∷ [])
  unfolding on_chunks on_data on_end
  streamed [] os = refl
  streamed (chunk ∷ chunks) os =
      streamed chunks (os ++ write chunk ∷ [])
      ∙ append_assoc os (write chunk ∷ []) (map write chunks ++ end_body [] ∷ [])

  -- A response that is not to be injected goes through as it comes: its status and headers, then its
  -- chunks in their order, then the end. The headers are those that came, each with its value, less
  -- `content-length`, `transfer-encoding` and `connection`.
  pub relay-streams :
      (is_get : Bool) (status : ℕ) (headers : Dict Text Text) (chunks : List (List ℕ))
      → is_html_for_injection is_get status headers ≡ false
      → ((on_end decode encode inject
            (on_chunks decode encode chunks (on_response is_get status headers new_relay))).output
          ≡ write_head status (response_headers headers) ∷ map write chunks ++ end_body [] ∷ [])
        × ((k : Text)
            → get k (response_headers headers) ≡ (if is_hop k then none else get k headers))
  unfolding on_response
  relay-streams is_get status headers chunks plain = (
    rw plain (streamed chunks (write_head status (response_headers headers) ∷ [])),
    λ k. get-response_headers k headers,
  )

  -- The chunks of a page, decoded one by one and put together.
  abbrev pub page_text : List (List ℕ) → Text
  page_text [] = []
  page_text (chunk ∷ chunks) = decode chunk ++ page_text chunks

  -- Before each chunk, the buffer and the chunk are within the cap.
  abbrev pub Fits : Text → List (List ℕ) → Type 0
  Fits buf [] = Unit
  Fits buf (chunk ∷ chunks) =
      (length buf + length chunk ≤ html_buffer_cap) × Fits (buf ++ decode chunk) chunks

  abbrev buffering : ℕ → Dict Text Text → Text → Relay
  buffering status out buf = record {
    html_buf = some buf;
    pending_status = status;
    pending_headers = some out;
    headers_sent = false;
    output = [];
  }

  data_fits :
      (status : ℕ) (out : Dict Text Text) (buf : Text) (chunk : List ℕ)
      → length buf + length chunk ≤ html_buffer_cap
      → on_data decode encode chunk (buffering status out buf)
        ≡ buffering status out (buf ++ decode chunk)
  unfolding on_data
  data_fits status out buf chunk h =
      rw (le→ltb-false html_buffer_cap (length buf + length chunk) h) refl

  buffered :
      (status : ℕ) (out : Dict Text Text) (buf : Text) (chunks : List (List ℕ))
      → Fits buf chunks
      → (on_end decode encode inject
          (on_chunks decode encode chunks (buffering status out buf))).output
        ≡ write_head status (no_store decode encode out)
          ∷ end_body (encode (inject (buf ++ page_text chunks)))
          ∷ []
  unfolding on_chunks on_data on_end
  buffered status out buf [] h =
      ap (λ z. write_head status (no_store decode encode out) ∷ end_body (encode (inject z)) ∷ [])
        (sym (append-nil buf))
  buffered status out buf (chunk ∷ chunks) h =
      ap (λ r. (on_end decode encode inject (on_chunks decode encode chunks r)).output)
        (data_fits status out buf chunk h.0)
      ∙ buffered status out (buf ++ decode chunk) chunks h.1
      ∙ ap (λ z. write_head status (no_store decode encode out) ∷ end_body (encode (inject z)) ∷ [])
          (append_assoc buf (decode chunk) (page_text chunks))

  get-no_store :
      (k : Text) (out : Dict Text Text)
      → get k (no_store decode encode out) ≡ (
          if is_validator k
          then none
          else if text_eq (text "cache-control") k
          then some (text "no-store")
          else get k out)
  get-no_store k out =
      let set_out = set (text "cache-control") (text "no-store") out in
      ground (
        arith,
        get-delete (text "last-modified") k (delete (text "etag") set_out),
        get-delete (text "etag") k set_out,
        get-set (text "cache-control") k (text "no-store") out,
      )

  -- A page that is to be injected and stays within the buffer's cap is sent in one piece when it ends:
  -- once its status with headers that forbid caching, and the injection into the text of all its
  -- chunks, each decoded by itself. The headers are those that came, less `etag`, `last-modified`,
  -- `content-length`, `transfer-encoding` and `connection`, and `cache-control` is `no-store`.
  pub relay-injects :
      (is_get : Bool) (status : ℕ) (headers : Dict Text Text) (chunks : List (List ℕ))
      → is_html_for_injection is_get status headers ≡ true
      → Fits [] chunks
      → ((on_end decode encode inject
            (on_chunks decode encode chunks (on_response is_get status headers new_relay))).output
          ≡ write_head status (no_store decode encode (response_headers headers))
            ∷ end_body (encode (inject (page_text chunks)))
            ∷ [])
        × ((k : Text)
            → get k (no_store decode encode (response_headers headers)) ≡ (
                if is_validator k
                then none
                else if text_eq (text "cache-control") k
                then some (text "no-store")
                else if is_hop k
                then none
                else get k headers))
  unfolding on_response
  relay-injects is_get status headers chunks page fits = (
    rw page (buffered status (response_headers headers) [] chunks fits),
    λ k.
        get-no_store k (response_headers headers)
        ∙ ap
            (λ z.
              if is_validator k
              then none
              else if text_eq (text "cache-control") k
              then some (text "no-store")
              else z)
            (get-response_headers k headers),
  )
