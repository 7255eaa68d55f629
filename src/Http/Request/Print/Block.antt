-- ===== src/Http/Request/Print/Block.antt =====
-- Where the empty line behind a printed request is found.
use ccnet_utilities.Http.Request.Print.Words.{IsWord}
use ccnet_utilities.Common.{
  ℕ, ◌≡◌, refl, sym, subst, ◌≢◌, false, some, List, [], ◌∷◌, ◌++◌, append_assoc, arith, length,
  Bytes, find,
}
use ccnet_utilities.Common.{Lacks, NoEarlier, find-NoEarlier, is_prefix}
use ccnet_utilities.Cpp.Words.{NoSpaces}
use ccnet_utilities.Utils.Copy.{is_space}
use ccnet_utilities.Http.Method.{HttpMethod, to_string}
use ccnet_utilities.Http.Version.{HttpVersion, version_string}
use ccnet_utilities.Http.Request.Multipart.{all_seg_terminate}
use ccnet_utilities.Http.Request.Print.{Field, line_of, lines_of, AreFields, start_line}
use ccnet_utilities.Http.Request.Print.Loop.{line_of-Lacks}
use ccnet_utilities.Http.Request.Print.RoundTrip.{print, start_line-Lacks}

-- The empty line does not begin within a line that a line end follows.
NoEarlier-line : (l t : Bytes) → Lacks b'\n' l → NoEarlier all_seg_terminate l (b'\r' ∷ t)
unfolding is_prefix
NoEarlier-line [] t h = tt
NoEarlier-line (c ∷ []) t h = (ground arith, tt)
NoEarlier-line (c ∷ e ∷ l) t h = (ground (arith, h.1.0), NoEarlier-line (e ∷ l) t h.1)

NoEarlier-append_lines :
    (p q t : Bytes)
    → NoEarlier all_seg_terminate p (q ++ t)
    → NoEarlier all_seg_terminate q t
    → NoEarlier all_seg_terminate (p ++ q) t
NoEarlier-append_lines [] q t hp hq = hq
NoEarlier-append_lines (c ∷ p) q t hp hq = (
  subst (λ x. is_prefix all_seg_terminate (c ∷ x) ≡ false) (sym (append_assoc p q t)) hp.0,
  NoEarlier-append_lines p q t hp.1 hq,
)

-- A line end in front of a byte that is not a carriage return.
NoEarlier-line_end :
    (c : ℕ) (s : Bytes) → c ≢ b'\r' → NoEarlier all_seg_terminate (b'\r' ∷ b'\n' ∷ []) (c ∷ s)
unfolding is_prefix
NoEarlier-line_end c s h = (ground arith, (ground arith, tt))

key-ne-cr : (c : ℕ) → is_space c ≡ false → c ≢ b'\r'
unfolding is_space
key-ne-cr c h e = ground arith

-- The lines, with the empty line behind them.
NoEarlier-lines_of :
    (fs : List Field) (t : Bytes)
    → AreFields fs
    → NoEarlier all_seg_terminate (lines_of fs) (all_seg_terminate ++ t)
NoEarlier-lines_of [] t h = tt
NoEarlier-lines_of (f ∷ fs) t (field, fields) =
    NoEarlier-append_lines (b'\r' ∷ b'\n' ∷ []) (line_of f ++ lines_of fs) (all_seg_terminate ++ t)
      (by_key f.key field.named field.no_spaces)
      (NoEarlier-append_lines (line_of f) (lines_of fs) (all_seg_terminate ++ t) (followed fs)
        (NoEarlier-lines_of fs t fields))
  where
    by_key :
        (k : Bytes)
        → k ≢ []
        → NoSpaces k
        → NoEarlier all_seg_terminate
            (b'\r' ∷ b'\n' ∷ [])
            (((k ++ (b':' ∷ b' ' ∷ f.value)) ++ lines_of fs) ++ (all_seg_terminate ++ t))
    by_key [] ne h = absurd (ne refl)
    by_key (c ∷ k) ne h = NoEarlier-line_end c _ (key-ne-cr c h.0)

    followed :
        (gs : List Field)
        → NoEarlier all_seg_terminate (line_of f) (lines_of gs ++ (all_seg_terminate ++ t))
    followed [] = NoEarlier-line (line_of f) _ (line_of-Lacks f field)
    followed (g ∷ gs) = NoEarlier-line (line_of f) _ (line_of-Lacks f field)

NoEarlier-start :
    (l : Bytes) (fs : List Field) (t : Bytes)
    → Lacks b'\n' l
    → NoEarlier all_seg_terminate l (lines_of fs ++ (all_seg_terminate ++ t))
NoEarlier-start l [] t h = NoEarlier-line l _ h
NoEarlier-start l (g ∷ gs) t h = NoEarlier-line l _ h

-- The first empty line behind a printed request is the one that ends it.
pub find-print :
    (m : HttpMethod) (target : Bytes) (v : HttpVersion) (fs : List Field) (t : Bytes)
    → IsWord target
    → AreFields fs
    → find (print m target v fs ++ (all_seg_terminate ++ t)) all_seg_terminate
      ≡ some (length (print m target v fs))
find-print m target v fs t word fields = find-NoEarlier (print m target v fs) all_seg_terminate t (
    NoEarlier-append_lines (start_line (to_string m) target (version_string v)) (lines_of fs)
      (all_seg_terminate ++ t)
      (NoEarlier-start (start_line (to_string m) target (version_string v)) fs t
        (start_line-Lacks m v target word))
      (NoEarlier-lines_of fs t fields))
