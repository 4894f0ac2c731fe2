-- ===== src/Redact/Stream.antt =====
-- What reaches the underlying writer does not depend on how the stream is cut into chunks.
use mathlib.Core.List.{append_assoc, append-nil}
use awsbnkctl.Base.{
  ℕ, zero, suc, ◌-◌, ◌≡◌, refl, sym, ap, ◌∙◌, inl, inr, Bool, true, false, List, [], ◌∷◌, ◌++◌,
  length, take, drop, null, leb, arith, Bool-cases,
}
use awsbnkctl.Redact.{
  Bytes, Redactor, scan_from, scan, write, close, write_all, add_secrets, new_redactor,
}
use awsbnkctl.Redact.Split.{IsPrefixFree, final_scan, scan_split}

-- Whatever follows, the bytes written so far and the scan of the buffer give the scan of the input.
abbrev Tracks : List Bytes → Redactor → Bytes → Type 0
Tracks ss r input =
    (r.secrets ≡ ss)
    × ((t : Bytes) → r.written ++ final_scan ss 0 (r.buf ++ t) ≡ final_scan ss 0 (input ++ t))

take_append_drop : (n : ℕ) (d : Bytes) → take n d ++ drop n d ≡ d
take_append_drop zero d = refl
take_append_drop (suc n) [] = refl
take_append_drop (suc n) (c ∷ d) = ap (λ (xs : Bytes). c ∷ xs) (take_append_drop n d)

abbrev pub Takes : (Bytes → Bool) → Type 0
Takes sink = (b : Bytes) → sink b ≡ true

abbrev pub concat : List Bytes → Bytes
concat [] = []
concat (p ∷ ps) = p ++ concat ps

write_short :
    (sink : Bytes → Bool) (p : Bytes) (r : Redactor)
    → null r.secrets ≡ false
    → leb (length (r.buf ++ p)) (r.max_len - 1) ≡ true
    → write sink p r ≡ (record r { buf = r.buf ++ p }, true)
unfolding write
write_short sink p r some_secret short = rw (some_secret, short, write) refl

abbrev flushed : Bytes → Redactor → ℕ
flushed p r = length (r.buf ++ p) - (r.max_len - 1)

abbrev scanned : Bytes → Redactor → Bytes × Bytes
scanned p r = scan_from r.secrets false 0 (take (flushed p r) (r.buf ++ p))

write_long :
    (sink : Bytes → Bool) (p : Bytes) (r : Redactor)
    → Takes sink
    → null r.secrets ≡ false
    → leb (length (r.buf ++ p)) (r.max_len - 1) ≡ false
    → write sink p r ≡ (
      record r {
        buf = (scanned p r).1 ++ drop (flushed p r) (r.buf ++ p);
        written = r.written ++ (scanned p r).0;
      },
      true,
    )
unfolding write scan
write_long sink p r takes some_secret long = rw (some_secret, long, takes, write) refl

long_tracked :
    (ss : List Bytes) (written buf input p : Bytes) (n : ℕ)
    → IsPrefixFree ss
    → ((t : Bytes) → written ++ final_scan ss 0 (buf ++ t) ≡ final_scan ss 0 (input ++ t))
    → (t : Bytes)
    → (written ++ (scan_from ss false 0 (take n (buf ++ p))).0)
        ++ final_scan ss 0
            (((scan_from ss false 0 (take n (buf ++ p))).1 ++ drop n (buf ++ p)) ++ t)
      ≡ final_scan ss 0 ((input ++ p) ++ t)
long_tracked ss written buf input p n free h t =
    let d = buf ++ p in
    let r = scan_from ss false 0 (take n d) in
    append_assoc written (r.0) _
    ∙ ap (λ (x : Bytes). written ++ (r.0 ++ final_scan ss 0 x)) (append_assoc (r.1) (drop n d) t)
    ∙ ap (λ (x : Bytes). written ++ x)
        (scan_split ss 0 (take n d) (drop n d ++ t) free (omega arith))
    ∙ ap (λ (x : Bytes). written ++ final_scan ss 0 x)
        (sym (append_assoc (take n d) (drop n d) t)
          ∙ ap (λ (x : Bytes). x ++ t) (take_append_drop n d)
          ∙ append_assoc buf p t)
    ∙ h (p ++ t)
    ∙ ap (final_scan ss 0) (sym (append_assoc input p t))

write-Tracks :
    (sink : Bytes → Bool) (ss : List Bytes) (p input : Bytes) (r : Redactor)
    → Takes sink
    → IsPrefixFree ss
    → null ss ≡ false
    → Tracks ss r input
    → Tracks ss (write sink p r).0 (input ++ p)
write-Tracks sink ss p input r takes free some_secret (same, h) =
    let some' : null r.secrets ≡ false = ap null same ∙ some_secret in
    elim (Bool-cases (leb (length (r.buf ++ p)) (r.max_len - 1))) [
      | inl short ↦ rw (write_short sink p r some' short) (
        same,
        λ t.
            ap (λ (x : Bytes). r.written ++ final_scan ss 0 x) (append_assoc r.buf p t)
            ∙ h (p ++ t)
            ∙ ap (final_scan ss 0) (sym (append_assoc input p t)),
      )
      | inr long ↦
          rw (write_long sink p r takes some' long)
            (same, λ t. rw same (long_tracked ss r.written r.buf input p (flushed p r) free h t))
    ]

scan_none : (ss : List Bytes) → final_scan ss 0 [] ≡ []
unfolding scan_from
scan_none ss = refl

close-written :
    (sink : Bytes → Bool) (r : Redactor)
    → Takes sink
    → (close sink r).0.written ≡ r.written ++ final_scan r.secrets 0 r.buf
unfolding close scan
close-written sink r takes = from r.buf refl
  where
    from :
        (b : Bytes)
        → r.buf ≡ b
        → (close sink r).0.written ≡ r.written ++ final_scan r.secrets 0 r.buf
    from [] e =
        rw (e, close)
          (sym (ap (λ (x : Bytes). r.written ++ x) (scan_none r.secrets) ∙ append-nil r.written))
    from (c ∷ b) e = rw (e, takes, close) refl

write_all-Tracks :
    (sink : Bytes → Bool) (ss : List Bytes) (ps : List Bytes) (input : Bytes) (r : Redactor)
    → Takes sink
    → IsPrefixFree ss
    → null ss ≡ false
    → Tracks ss r input
    → (write_all sink ps r).written ≡ final_scan ss 0 (input ++ concat ps)
unfolding write_all
write_all-Tracks sink ss [] input r takes free some_secret (same, h) =
    close-written sink r takes
    ∙ ap (λ (xs : List Bytes). r.written ++ final_scan xs 0 r.buf) same
    ∙ ap (λ (x : Bytes). r.written ++ final_scan ss 0 x) (sym (append-nil r.buf))
    ∙ h []
write_all-Tracks sink ss (p ∷ ps) input r takes free some_secret tracks =
    write_all-Tracks sink ss ps (input ++ p) (write sink p r).0 takes free some_secret
      (write-Tracks sink ss p input r takes free some_secret tracks)
    ∙ ap (final_scan ss 0) (append_assoc input p (concat ps))

add_secrets-kept :
    (ss : List Bytes) (r : Redactor)
    → ((add_secrets ss r).buf ≡ r.buf) × ((add_secrets ss r).written ≡ r.written)
unfolding add_secrets
add_secrets-kept [] r = (refl, refl)
add_secrets-kept ([] ∷ ss) r = add_secrets-kept ss r
add_secrets-kept ((c ∷ s) ∷ ss) r = add_secrets-kept ss _

new_redactor-clean :
    (ss : List Bytes) → ((new_redactor ss).buf ≡ []) × ((new_redactor ss).written ≡ [])
unfolding new_redactor
new_redactor-clean ss = add_secrets-kept ss _

clean_start :
    (ss : List Bytes) (w b t : Bytes)
    → b ≡ []
    → w ≡ []
    → w ++ final_scan ss 0 (b ++ t) ≡ final_scan ss 0 t
clean_start ss w b t e f = rw (e, f) refl

-- If no secret starts a longer one, and one is not empty, and the underlying writer takes all
-- bytes, then what a stream writes until it is closed is what one scan of all its bytes gives,
-- however the bytes are cut into chunks.
pub write_all-scan :
    (sink : Bytes → Bool) (secrets chunks : List Bytes)
    → Takes sink
    → IsPrefixFree (new_redactor secrets).secrets
    → null (new_redactor secrets).secrets ≡ false
    → (write_all sink chunks (new_redactor secrets)).written
      ≡ (scan (new_redactor secrets).secrets (concat chunks) true).0
unfolding scan
write_all-scan sink secrets chunks takes free some_secret =
    let (buf, written) = new_redactor-clean secrets in
    write_all-Tracks sink (new_redactor secrets).secrets chunks [] (new_redactor secrets) takes free
      some_secret (refl, λ t. clean_start (new_redactor secrets).secrets _ _ t buf written)
