-- ===== src/ToolCall/Malformed.antt =====
-- Which texts looks_like_malformed_json_object takes for an object (498-545).
use codex_local_qwen27b.Base.{
  ℕ, suc, ◌+◌, ◌-◌, ◌≡◌, refl, sym, ap, ◌∙◌, Bool, true, false, ◌&&◌, some, List, [], ◌∷◌, ◌++◌,
  Bytes, arith, all, length, length-append, take, drop, take-length-append, get_elem?, is_ws,
  drop_leading,
}
use codex_local_qwen27b.ToolCall.{
  is_quote, balanced_braces_end, after_quote, is_ident_start, is_ident_continue, after_key, has_key,
  looks_like_malformed_json_object,
}
use codex_local_qwen27b.ToolCall.Braces.{
  Literal, as_is, behind_backslash, Items, byte, quoted, literal_text, items_text, fits_literal,
  well_nested, items_text-append, balanced_braces_end-items,
}

-- A key: a string with any of the three quotes, or a bare identifier.
pub data Key : Type 0 where
  quoted_key : (q : ℕ) (body : List Literal) → Key
  bare_key : (c : ℕ) (cs : Bytes) → Key

abbrev pub is_key : Key → Bool
is_key (quoted_key q body) = is_quote q && all (fits_literal q) body
is_key (bare_key c cs) = is_ident_start c && all is_ident_continue cs

abbrev pub bytes_then : Bytes → Items → Items
bytes_then [] t = t
bytes_then (c ∷ cs) t = byte c (bytes_then cs t)

abbrev pub key_then : Key → Items → Items
key_then (quoted_key q body) t = quoted q body t
key_then (bare_key c cs) t = byte c (bytes_then cs t)

-- The inside of an object: white space, a key, white space, a colon, and then anything.
abbrev pub object_items : Bytes → Key → Bytes → Items → Items
object_items before key behind t =
    bytes_then before (key_then key (bytes_then behind (byte b':' t)))

bytes_then-text :
    (cs : Bytes) (t : Items) (k : Bytes) → items_text (bytes_then cs t) k ≡ cs ++ items_text t k
bytes_then-text [] t k = refl
bytes_then-text (c ∷ cs) t k = ap (◌∷◌ c) (bytes_then-text cs t k)

ws_well_nested :
    (cs : Bytes) (t : Items)
    → all is_ws cs ≡ true
    → well_nested t ≡ true
    → well_nested (bytes_then cs t) ≡ true
unfolding all
ws_well_nested [] t h k = k
ws_well_nested (c ∷ cs) t h k = ground (arith, h, ws_well_nested cs t)

ident_well_nested :
    (cs : Bytes) (t : Items)
    → all is_ident_continue cs ≡ true
    → well_nested t ≡ true
    → well_nested (bytes_then cs t) ≡ true
unfolding all
ident_well_nested [] t h k = k
ident_well_nested (c ∷ cs) t h k = ground (arith, h, ident_well_nested cs t)

key_well_nested :
    (key : Key) (t : Items)
    → is_key key ≡ true
    → well_nested t ≡ true
    → well_nested (key_then key t) ≡ true
key_well_nested (quoted_key q body) t h k = ground (arith, h, k)
key_well_nested (bare_key c cs) t h k = ground (arith, h, k, ident_well_nested cs t)

-- Bytes that do not start with one that passes.
abbrev pub Stops : (ℕ → Bool) → Bytes → Type 0
Stops p [] = Unit
Stops p (c ∷ cs) = p c ≡ false

pub drop_leading-append :
    (p : ℕ → Bool) (xs ys : Bytes) → all p xs ≡ true → Stops p ys → drop_leading p (xs ++ ys) ≡ ys
unfolding drop_leading all
drop_leading-append p [] [] h s = refl
drop_leading-append p [] (y ∷ ys) h s = rw s refl
drop_leading-append p (x ∷ xs) ys h s = ground (arith, h, drop_leading-append p xs ys)

after_quote-literal :
    (ls : List Literal) (q : ℕ) (k : Bytes)
    → is_quote q ≡ true
    → all (fits_literal q) ls ≡ true
    → after_quote q false (literal_text ls (q ∷ k)) ≡ some k
unfolding after_quote all
after_quote-literal [] q k e h = ground (arith, e)
after_quote-literal (as_is c ∷ ls) q k e h = ground (arith, h, after_quote-literal ls q k)
after_quote-literal (behind_backslash c ∷ ls) q k e h =
    after_quote-literal ls q k e (ground (arith, h))

behind_Stops :
    (behind : Bytes) (t : Items)
    → all is_ws behind ≡ true
    → Stops is_ident_continue (behind ++ b':' ∷ items_text t [])
unfolding all
behind_Stops [] t w = refl
behind_Stops (c ∷ cs) t w = ground (arith, w)

-- Behind the key stands white space or the colon.
after_key-key :
    (key : Key) (behind : Bytes) (t : Items)
    → is_key key ≡ true
    → all is_ws behind ≡ true
    → after_key (items_text (key_then key (bytes_then behind (byte b':' t))) [])
      ≡ some (behind ++ b':' ∷ items_text t [])
unfolding after_key all drop_leading
after_key-key (quoted_key q body) behind t h w =
    let e : is_quote q ≡ true = ground (arith, h) in
    rw
      (
        after_key,
        e,
        after_quote-literal body q (items_text (bytes_then behind (byte b':' t)) [])
            (ground (arith, h)) (ground (arith, h)),
      )
      (ap some (bytes_then-text behind (byte b':' t) []))
after_key-key (bare_key c cs) behind t h w =
    let no_quote : is_quote c ≡ false = ground (arith, h) in
    let ident : is_ident_start c ≡ true = ground (arith, h) in
    rw
      (
        after_key,
        no_quote,
        ident,
        bytes_then-text cs (bytes_then behind (byte b':' t)) [],
        bytes_then-text behind (byte b':' t) [],
      )
      (ap some (
        drop_leading-append is_ident_continue cs (behind ++ b':' ∷ items_text t [])
          (ground (arith, h)) (behind_Stops behind t w)))

key_Stops :
    (key : Key) (rest : Items) → is_key key ≡ true → Stops is_ws (items_text (key_then key rest) [])
key_Stops (quoted_key q body) rest h = ground (arith, h)
key_Stops (bare_key c cs) rest h = ground (arith, h)

has_key-object :
    (before : Bytes) (key : Key) (behind : Bytes) (t : Items)
    → all is_ws before ≡ true
    → is_key key ≡ true
    → all is_ws behind ≡ true
    → has_key (items_text (object_items before key behind t) []) ≡ true
unfolding has_key
has_key-object before key behind t w h v =
    let rest = key_then key (bytes_then behind (byte b':' t)) in
    rw
      (
        has_key,
        bytes_then-text before rest [],
        drop_leading-append is_ws before (items_text rest []) w
            (key_Stops key (bytes_then behind (byte b':' t)) h),
        after_key-key key behind t h v,
        drop_leading-append is_ws behind (b':' ∷ items_text t []) v refl,
      )
      refl

last_byte : (xs : Bytes) (c : ℕ) → get_elem? (xs ++ c ∷ []) (length xs) ≡ some c
last_byte [] c = refl
last_byte (x ∷ xs) c = last_byte xs c

last_of :
    (xs : Bytes) (b c : ℕ) → get_elem? (b ∷ xs ++ c ∷ []) (length (b ∷ xs ++ c ∷ []) - 1) ≡ some c
last_of xs b c =
    ap (get_elem? (b ∷ xs ++ c ∷ [])) {y = suc (length xs)}
      (omega (arith, length-append xs (c ∷ [])))
    ∙ last_byte xs c

inner_of :
    (xs : Bytes) (b c : ℕ) → take (length (b ∷ xs ++ c ∷ []) - 2) (drop 1 (b ∷ xs ++ c ∷ [])) ≡ xs
inner_of xs b c =
    ap (λ n. take n (xs ++ c ∷ [])) {y = length xs} (omega (arith, length-append xs (c ∷ [])))
    ∙ take-length-append xs (c ∷ [])

framed :
    (inner : Bytes)
    → balanced_braces_end (b'{' ∷ inner ++ b'}' ∷ []) 0 ≡ some (length inner + 2)
    → has_key inner ≡ true
    → looks_like_malformed_json_object (b'{' ∷ inner ++ b'}' ∷ []) ≡ true
unfolding looks_like_malformed_json_object
framed inner e h =
    rw (looks_like_malformed_json_object, e, last_of inner b'{' b'}', inner_of inner b'{' b'}', h)
      (ground (arith, length-append inner (b'}' ∷ [])))

object_well_nested :
    (before : Bytes) (key : Key) (behind : Bytes) (t : Items)
    → all is_ws before ≡ true
    → is_key key ≡ true
    → all is_ws behind ≡ true
    → well_nested t ≡ true
    → well_nested (object_items before key behind t) ≡ true
object_well_nested before key behind t w h v n =
    ws_well_nested before _ w (key_well_nested key _ h (ws_well_nested behind (byte b':' t) v n))

-- An object with a key is taken for one, whatever follows its colon, as long as the braces, brackets
-- and strings in it nest.
pub looks_like_malformed_json_object-object :
    (before : Bytes) (key : Key) (behind : Bytes) (t : Items)
    → all is_ws before ≡ true
    → is_key key ≡ true
    → all is_ws behind ≡ true
    → well_nested t ≡ true
    → looks_like_malformed_json_object
        (b'{' ∷ items_text (object_items before key behind t) (b'}' ∷ []))
      ≡ true
looks_like_malformed_json_object-object before key behind t w h v n =
    let all_items = object_items before key behind t in
    ap (λ z. looks_like_malformed_json_object (b'{' ∷ z))
      (items_text-append all_items [] (b'}' ∷ []))
    ∙ framed (items_text all_items [])
        (ap (λ z. balanced_braces_end (b'{' ∷ z) 0)
            (sym (items_text-append all_items [] (b'}' ∷ [])))
          ∙ balanced_braces_end-items [] all_items []
              (object_well_nested before key behind t w h v n)
          ∙ ap some (omega arith))
        (has_key-object before key behind t w h v)
