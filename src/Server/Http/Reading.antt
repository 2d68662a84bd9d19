-- ===== src/Server/Http/Reading.antt =====
-- recv in pieces: what read_http_request has in its buffer behind the loops of 4696-4719 and
-- 4762-4766, however the text was cut.
use codex_local_qwen27b.Base.{
  ℕ, ◌+◌, ◌≤◌, ◌<◌, ◌≡◌, refl, sym, ap, ◌∙◌, false, Option, none, some, List, [], ◌∷◌, ◌++◌,
  append_assoc, Bytes, arith, ltb, if_cases, length, is_empty, find, length-append, inl, inr,
  Bool-cases,
}
use codex_local_qwen27b.Server.Http.{
  crlf_blank, lf_blank, head_end, end_of, head_or, Head, read_head, read_body,
}
use codex_local_qwen27b.Server.Http.Find.{find_prefix-none, find_prefix_before}

abbrev pub concat : List Bytes → Bytes
concat [] = []
concat (p ∷ ps) = p ++ concat ps

abbrev tail : Bytes → Bytes
tail [] = []
tail (x ∷ xs) = xs

abbrev first_byte : Bytes → ℕ
first_byte [] = 0
first_byte (x ∷ xs) = x

-- recv returns no empty piece before the end.
abbrev pub NoneEmpty : List Bytes → Type 0
NoneEmpty [] = Unit
NoneEmpty (p ∷ ps) = (is_empty p ≡ false) × NoneEmpty ps

-- Of two beginnings of a text the shorter is one of the longer.
pub beginning :
    (xs ys zs t : Bytes) → xs ++ ys ≡ zs ++ t → length xs ≤ length zs → (u : Bytes) × (zs ≡ xs ++ u)
beginning [] ys zs t e l = (zs, refl)
beginning (x ∷ xs) ys [] t e l = absurd (omega arith)
beginning (x ∷ xs) ys (z ∷ zs) t e l =
    let (u, q) = beginning xs ys zs t (ap tail e) (omega arith) in
    (u, ap (◌∷◌ z) q ∙ ap (λ b. b ∷ xs ++ u) (sym (ap first_byte e)))

-- A text with a head: the blank line ends it, and no LF blank line stands in it.
pub record IsHead (head : Bytes) (i : ℕ) : Type 0 where
  pub blank : (t : Bytes) → find (head ++ t) crlf_blank ≡ some i
  pub ends : i + 4 ≡ length head
  pub no_lf_blank : find head lf_blank ≡ none
  pub fits : length head ≤ 65536

pub not_yet :
    (head xs ys t : Bytes) (i : ℕ)
    → IsHead head i
    → xs ++ ys ≡ head ++ t
    → length xs < length head
    → head_end xs ≡ none
unfolding head_end
not_yet head xs ys t i h e l =
    let (u, q) = beginning xs ys head t e (omega arith) in
    ap (λ z. end_of z (find xs lf_blank))
      (find_prefix_before xs ys crlf_blank i (ap (λ z. find z crlf_blank) e ∙ h.blank t)
        (omega (arith, h.ends)))
    ∙ ap (end_of none)
        (find_prefix-none xs u lf_blank (ap (λ z. find z lf_blank) (sym q) ∙ h.no_lf_blank))

reached :
    (head xs ys t : Bytes) (i : ℕ)
    → IsHead head i
    → xs ++ ys ≡ head ++ t
    → length head ≤ length xs
    → head_end xs ≡ some (length head)
unfolding head_end
reached head xs ys t i h e l =
    let (u, q) = beginning head t xs ys (sym e) l in
    ap (λ z. end_of z (find xs lf_blank)) (ap (λ z. find z crlf_blank) q ∙ h.blank u)
    ∙ ap some h.ends

-- What the loop of the head leaves: a beginning of the text with the whole head, and the rest in
-- pieces.
pub record HeadRead (head full : Bytes) (o : Option Head) : Type 0 where
  pub before : Bytes
  pub later : List Bytes
  pub outcome : o ≡ some (record { head_size = length head; buffer = before; pieces = later })
  pub all_bytes : before ++ concat later ≡ full
  pub whole_head : length head ≤ length before
  pub no_empty : NoneEmpty later

pub receives :
    (p : Bytes) (ps : List Bytes) (xs : Bytes)
    → is_empty p ≡ false
    → length xs < 65536
    → read_head (p ∷ ps) xs ≡ head_or (head_end (xs ++ p)) (xs ++ p) ps (read_head ps (xs ++ p))
unfolding read_head
receives p ps xs n l = ground (arith, n)

pub read_head-HeadRead :
    (ps : List Bytes) (xs head t : Bytes) (i : ℕ)
    → IsHead head i
    → NoneEmpty ps
    → xs ++ concat ps ≡ head ++ t
    → length xs < length head
    → HeadRead head (head ++ t) (read_head ps xs)
unfolding read_head
read_head-HeadRead [] xs head t i h n e l =
    absurd (omega (arith, ap length e, length-append xs [], length-append head t))
read_head-HeadRead (p ∷ ps) xs head t i h n e l =
    let e' = append_assoc xs p (concat ps) ∙ e in
    elim (Bool-cases (ltb (length (xs ++ p)) (length head))) [
      | inl b ↦
          let r = read_head-HeadRead ps (xs ++ p) head t i h n.1 e' (ground arith) in
          record {
            before = r.before;
            later = r.later;
            outcome =
                receives p ps xs n.0 (omega (arith, h.fits))
                ∙ ap (λ z. head_or z (xs ++ p) ps (read_head ps (xs ++ p)))
                    (not_yet head (xs ++ p) (concat ps) t i h e' (ground arith))
                ∙ r.outcome;
            all_bytes = r.all_bytes;
            whole_head = r.whole_head;
            no_empty = r.no_empty;
          }
      | inr b ↦ record {
        before = xs ++ p;
        later = ps;
        outcome =
            receives p ps xs n.0 (omega (arith, h.fits))
            ∙ ap (λ z. head_or z (xs ++ p) ps (read_head ps (xs ++ p)))
                (reached head (xs ++ p) (concat ps) t i h e' (ground arith));
        all_bytes = e';
        whole_head = ground arith;
        no_empty = n.1;
      }
    ]

-- The loop of the body leaves a beginning of the text with all bytes asked for.
pub record BodyRead (size : ℕ) (full : Bytes) (o : Option Bytes) : Type 0 where
  pub read : Bytes
  pub unread : Bytes
  pub outcome : o ≡ some read
  pub all_bytes : read ++ unread ≡ full
  pub enough : size ≤ length read

pub read_body-BodyRead :
    (ps : List Bytes) (size : ℕ) (xs full : Bytes)
    → NoneEmpty ps
    → xs ++ concat ps ≡ full
    → size ≤ length full
    → BodyRead size full (read_body size ps xs)
unfolding read_body
read_body-BodyRead [] size xs full n e l = record {
  read = xs;
  unread = [];
  outcome = ground (arith, ap length e, length-append xs []);
  all_bytes = e;
  enough = omega (arith, ap length e, length-append xs []);
}
read_body-BodyRead (p ∷ ps) size xs full n e l =
    if_cases (BodyRead size full) (ltb (length xs) size)
      (λ b.
        rw n.0
          (read_body-BodyRead ps size (xs ++ p) full n.1 (append_assoc xs p (concat ps) ∙ e) l))
      (λ b. record {
        read = xs;
        unread = p ++ concat ps;
        outcome = refl;
        all_bytes = e;
        enough = ground arith;
      })
