-- ===== src/Server/Heartbeat/Done.antt =====
-- The search for the end of an upstream's stream does not depend on how its bytes are cut in chunks.
use codex_local_qwen27b.Base.{
  ℕ, ◌≡◌, refl, ap, ◌∙◌, Bool, true, false, ◌||◌, [], ◌∷◌, ◌++◌, Bytes, leb, if◌then◌else◌, ◌==◌,
  length, bytes_eq,
}
use codex_local_qwen27b.Server.Heartbeat.{done_line, done_step, done_scan, sse_chunk_has_done}

done_scan-append :
    (xs : Bytes) (found : Bool) (line ys : Bytes)
    → done_scan found line (xs ++ ys)
      ≡ done_scan (done_scan found line xs).0 (done_scan found line xs).1 ys
unfolding done_scan
done_scan-append [] found line ys = refl
done_scan-append (x ∷ xs) found line ys =
    done_scan-append xs (done_step found line x).0 (done_step found line x).1 ys

-- One step, on its two tests.
abbrev stepped : Bool → Bool → Bool → Bool → Bytes → Bytes → Bool × Bytes
stepped f q a b l1 l2 = if a then (f || q, []) else if b then (f, l1) else (f, l2)

stepped_line :
    (f g q a b : Bool) (l1 l2 : Bytes) → (stepped f q a b l1 l2).1 ≡ (stepped g q a b l1 l2).1
stepped_line f g q true b l1 l2 = refl
stepped_line f g q false true l1 l2 = refl
stepped_line f g q false false l1 l2 = refl

stepped-true : (q a b : Bool) (l1 l2 : Bytes) → (stepped true q a b l1 l2).0 ≡ true
stepped-true q true b l1 l2 = refl
stepped-true q false true l1 l2 = refl
stepped-true q false false l1 l2 = refl

done_step_line :
    (f g : Bool) (line : Bytes) (x : ℕ) → (done_step f line x).1 ≡ (done_step g line x).1
unfolding done_step
done_step_line f g line x =
    stepped_line f g (bytes_eq line done_line) (x == b'\r' || x == b'\n') (leb (length line) 12)
      (line ++ x ∷ []) line

done_step-true : (line : Bytes) (x : ℕ) → (done_step true line x).0 ≡ true
unfolding done_step
done_step-true line x =
    stepped-true (bytes_eq line done_line) (x == b'\r' || x == b'\n') (leb (length line) 12)
      (line ++ x ∷ []) line

done_scan_line :
    (xs : Bytes) (f g : Bool) (line line' : Bytes)
    → line ≡ line'
    → (done_scan f line xs).1 ≡ (done_scan g line' xs).1
unfolding done_scan
done_scan_line [] f g line line' e = e
done_scan_line (x ∷ xs) f g line line' e =
    done_scan_line xs _ _ _ _ (done_step_line f g line x ∙ ap (λ z. (done_step g z x).1) e)

done_scan-true : (xs : Bytes) (f : Bool) (line : Bytes) → f ≡ true → (done_scan f line xs).0 ≡ true
unfolding done_scan
done_scan-true [] f line e = e
done_scan-true (x ∷ xs) f line e =
    done_scan-true xs _ _ (ap (λ z. (done_step z line x).0) e ∙ done_step-true line x)

found_or :
    (a : Bool) (line ys : Bytes) → (done_scan a line ys).0 ≡ (a || (done_scan false line ys).0)
found_or true line ys = done_scan-true ys true line refl
found_or false line ys = refl

-- However a stream is cut in two chunks: the marker is found in the whole if and only if it is found
-- in one of them, the second read with the partial line that the first leaves, and the whole
-- leaves the partial line that the second leaves.
pub sse_chunk_has_done-append :
    (line xs ys : Bytes)
    → ((sse_chunk_has_done line (xs ++ ys)).0 ≡ (
        (sse_chunk_has_done line xs).0 || (sse_chunk_has_done (sse_chunk_has_done line xs).1 ys).0))
      × ((sse_chunk_has_done line (xs ++ ys)).1
          ≡ (sse_chunk_has_done (sse_chunk_has_done line xs).1 ys).1)
unfolding sse_chunk_has_done
sse_chunk_has_done-append line xs ys =
    let first = done_scan false line xs in
    let whole = done_scan-append xs false line ys in
    (
      ap (λ p. p.0) whole ∙ found_or first.0 first.1 ys,
      ap (λ p. p.1) whole ∙ done_scan_line ys first.0 false first.1 first.1 refl,
    )
