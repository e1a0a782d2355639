-- ===== src/Adapters/Replies.antt =====
-- What may stand in a reply: no segment is longer than its cap, no backtick is sent, and no tool's result.
use Prim.Native.Char.{Char, code}
use nadi.Common.{
  ℕ, zero, suc, ◌≤◌, ◌≡◌, ◌≢◌, refl, sym, ◌∙◌, String, ◌<>◌, Bool, false, not, ◌&&◌, ◌||◌, List, [],
  ◌∷◌, arith, ◌==◌, nat_eq, string_eq, eq_iff, if◌then◌else◌, if_both, Bool-cases, inl, inr, All,
}
use text.Mathlib.TextLemmas.{nil-append, cons-append}
use nadi.Strings.{take_chars, join_with, text_length}
use mathlib.Core.Path.{subst}
use nadi.Json.{Value, Fields, obj, end, get_or}
use nadi.Exec.{Result, ok, err, then_result}
use nadi.Sql.{select}
use nadi.Store.Events.{Appended}
use nadi.Adapters.{
  strip_controls, replace_backticks, quote_char, max_segment, sanitize, add_text, clean, tool_part,
  event_part, reply_parts, extract_reply_text,
}

-- A text without a character.
abbrev pub Lacks : ℕ → String → Type 0
Lacks x String.[] = Unit {0}
Lacks x (String.◌∷◌ c s) = (code c ≢ x) × Lacks x s

Lacks-append : (x : ℕ) (s t : String) → Lacks x s → Lacks x t → Lacks x (s <> t)
Lacks-append x String.[] t h k = rw (nil-append t) k
Lacks-append x (String.◌∷◌ c s) t h k = rw (cons-append c s t) (h.0, Lacks-append x s t h.1 k)

Lacks-take_chars : (x n : ℕ) (s : String) → Lacks x s → Lacks x (take_chars n s)
unfolding take_chars
Lacks-take_chars x zero s h = tt
Lacks-take_chars x (suc n) String.[] h = tt
Lacks-take_chars x (suc n) (String.◌∷◌ c s) h = (h.0, Lacks-take_chars x n s h.1)

quote_char-ne : (c : Char) → code (quote_char c) ≢ b'`'
quote_char-ne c h = elim (Bool-cases (code c == b'`')) [
  | inl e ↦ absurd (let k : code "'" ≡ b'`' = rw e at h in omega arith)
  | inr e ↦ absurd (ground (arith, e, rw e at h))
]

replace_backticks-Lacks : (s : String) → Lacks b'`' (replace_backticks s)
unfolding replace_backticks
replace_backticks-Lacks String.[] = tt
replace_backticks-Lacks (String.◌∷◌ c s) = (quote_char-ne c, replace_backticks-Lacks s)

sanitize-Lacks : (s : String) → Lacks b'`' (sanitize s)
unfolding sanitize
sanitize-Lacks s =
    Lacks-take_chars b'`' max_segment _ (replace_backticks-Lacks (strip_controls false s))

length-take_chars : (n : ℕ) (s : String) → text_length (take_chars n s) ≤ n
unfolding take_chars
length-take_chars zero s = omega arith
length-take_chars (suc n) String.[] = omega arith
length-take_chars (suc n) (String.◌∷◌ c s) = omega (arith, length-take_chars n s)

-- A sanitised text has at most 4000 characters, and no backtick is among them.
pub sanitize_lem : (s : String) → (text_length (sanitize s) ≤ max_segment) × Lacks b'`' (sanitize s)
unfolding sanitize
sanitize_lem s = (length-take_chars max_segment _, sanitize-Lacks s)

abbrev AllLack : List String → Type 0
AllLack parts = All (λ p. Lacks b'`' p) parts

join_with-Lacks : (parts : List String) → AllLack parts → Lacks b'`' (join_with "\n" parts)
unfolding join_with
join_with-Lacks [] h = tt
join_with-Lacks (p ∷ []) h = h.0
join_with-Lacks (p ∷ q ∷ ps) h =
    Lacks-append b'`' p _ h.0
      (Lacks-append b'`' "\n" _ (omega arith, tt) (join_with-Lacks (q ∷ ps) h.1))

add_text-Lacks :
    (label text : String) (parts : List String)
    → Lacks b'`' label
    → Lacks b'`' text
    → AllLack parts
    → AllLack (add_text label text parts)
add_text-Lacks label String.[] parts h k a = a
add_text-Lacks label (String.◌∷◌ c s) parts h k a = (Lacks-append b'`' label _ h k, a)

-- What an event may not add to the parts: a backtick.
abbrev Clean : Result (List String) → Type 0
Clean (ok parts) = AllLack parts
Clean (err e) = Unit {0}

abbrev CleanText : Result String → Type 0
CleanText (ok t) = Lacks b'`' t
CleanText (err e) = Unit {0}

-- The event is no result of a tool.
abbrev pub is_public : Appended → Bool
is_public ev = not (ev.event_type == "tool.result")

module _ (repr : Value → String) where
  tool_part-Clean :
      (payload : Fields) (v : Value) (parts : List String)
      → AllLack parts
      → Clean (tool_part repr payload v parts)
  tool_part-Clean payload (obj result) parts a =
      add_text-Lacks _ _ parts
        (Lacks-append b'`' "[" _ (omega arith, tt)
          (Lacks-append b'`' (clean repr payload "tool" "tool") "] " (sanitize-Lacks _)
            (omega arith, (omega arith, tt))))
        (sanitize-Lacks _) a
  tool_part-Clean payload _ parts a = tt

  error-Lacks : (t : String) → Lacks b'`' ("Error: " <> sanitize t)
  error-Lacks t = Lacks-append b'`' "Error: " (sanitize t) (omega arith) (sanitize-Lacks t)

  event_part-Clean :
      (include : Bool) (ev : Appended) (parts : List String)
      → AllLack parts
      → Clean (event_part repr include ev parts)
  unfolding event_part
  event_part-Clean include ev parts a =
      if_both Clean (ev.event_type == "assistant.message" || ev.event_type == "model.response") _ _
        (add_text-Lacks "" _ parts tt (sanitize-Lacks _) a)
        (if_both Clean (ev.event_type == "tool.result" && include) _ _
          (tool_part-Clean ev.payload (get_or ev.payload "result" (obj end)) parts a)
          (if_both Clean (ev.event_type == "command.error") _ _ (error-Lacks _, a) a))

  then_result-Clean :
      (r : Result (List String)) (include : Bool) (ev : Appended)
      → Clean r
      → Clean (then_result r (event_part repr include ev))
  then_result-Clean (ok parts) include ev a = event_part-Clean include ev parts a
  then_result-Clean (err e) include ev a = tt

  reply_parts-Clean : (include : Bool) (evs : List Appended) → Clean (reply_parts repr include evs)
  unfolding reply_parts
  reply_parts-Clean include [] = tt
  reply_parts-Clean include (ev ∷ evs) =
      then_result-Clean _ include ev (reply_parts-Clean include evs)

  joined-Clean :
      (r : Result (List String))
      → Clean r
      → CleanText (then_result r λ parts. ok (join_with "\n" parts))
  joined-Clean (ok parts) a = join_with-Lacks parts a
  joined-Clean (err e) a = tt

  -- No reply has a backtick, with the results of tools and without them.
  pub extract_reply_text-Lacks :
      (include : Bool) (evs : List Appended) (reply : String)
      → extract_reply_text repr include evs ≡ ok reply
      → Lacks b'`' reply
  unfolding extract_reply_text
  extract_reply_text-Lacks include evs reply h =
      subst CleanText h
        (joined-Clean (reply_parts repr include evs) (reply_parts-Clean include evs))

  event_part_public :
      (include : Bool) (ev : Appended) (parts : List String)
      → event_part repr false ev parts
        ≡ (if is_public ev then event_part repr include ev parts else ok parts)
  unfolding event_part
  event_part_public include ev parts = elim (Bool-cases (ev.event_type == "tool.result")) [
    | inl e ↦ rw ((eq_iff ev.event_type "tool.result").0 e, event_part) refl
    | inr e ↦ rw (e, event_part) refl
  ]

  then_result-public :
      (r : Result (List String)) (include : Bool) (ev : Appended)
      → then_result r (event_part repr false ev)
        ≡ (if is_public ev then then_result r (event_part repr include ev) else r)
  then_result-public (ok parts) include ev = event_part_public include ev parts
  then_result-public (err e) include ev = ground arith

  reply_parts_public :
      (include : Bool) (evs : List Appended)
      → reply_parts repr false evs ≡ reply_parts repr include (select is_public evs)
  unfolding reply_parts select
  reply_parts_public include [] = refl
  reply_parts_public include (ev ∷ evs) =
      rw (reply_parts_public include evs) (then_result-public _ include ev ∙ ground arith)

  abbrev Returns : Result (List String) → Type 0
  Returns r = (parts : List String) × (r ≡ ok parts)

  event_part_returns :
      (ev : Appended) (parts : List String)
      → (parts' : List String) × (event_part repr false ev parts ≡ ok parts')
  unfolding event_part
  event_part_returns ev parts = elim (Bool-cases (ev.event_type == "tool.result" && false)) [
    | inl e ↦ absurd (ground (arith, e))
    | inr e ↦
        rw (e, event_part)
          (if_both Returns
            (ev.event_type == "assistant.message" || ev.event_type == "model.response") _ _
            (add_text "" (clean repr ev.payload "text" "") parts, refl)
            (if_both Returns (ev.event_type == "command.error") _ _
              (("Error: " <> clean repr ev.payload "error" "unknown error") ∷ parts, refl)
              (parts, refl)))
  ]

  reply_parts_returns :
      (evs : List Appended) → (parts : List String) × (reply_parts repr false evs ≡ ok parts)
  unfolding reply_parts
  reply_parts_returns [] = ([], refl)
  reply_parts_returns (ev ∷ evs) =
      let (parts, e) = reply_parts_returns evs in rw e (event_part_returns ev parts)

  -- The text of a reply without the results of tools is the text that the other events give, whether
  -- tools are included or not, and it is always there: such a reply never fails.
  pub extract_reply_text_public :
      (include : Bool) (evs : List Appended)
      → (reply : String) × (extract_reply_text repr false evs ≡ ok reply)
        × (extract_reply_text repr include (select is_public evs) ≡ ok reply)
  unfolding extract_reply_text
  extract_reply_text_public include evs =
      let (parts, e) = reply_parts_returns evs in
      (join_with "\n" parts, rw e, rw (sym (reply_parts_public include evs) ∙ e))
