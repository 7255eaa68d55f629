-- ===== src/Tests/Wire.antt =====
-- A connection that keeps every promise: what the peer has sent, and what was sent to it.
use ccnet_utilities.Common.{
  ℕ, zero, suc, ◌≤◌, ◌<◌, ◌≡◌, refl, sym, ap, ◌∙◌, subst, ◌≢◌, none, some, [], ◌∷◌, ◌++◌, arith,
  length, take, drop, length-take, take-append-drop, Bytes,
}
use ccnet_utilities.CoroHttp.Socket.{Socket, Reads, Delivers, Writes, Accepts, got, failed}
use ccnet_utilities.Http.ServerConfig.{ServerConfig, default, set_read_block}

abbrev pub wire : Socket
wire = record {
  State = Bytes × Bytes;
  async_read = λ st n. (got (take n st.0), (drop n st.0, st.1));
  async_write = λ st bs. (some (length bs), (st.0, st.1 ++ bs));
}

pub got-injective : {a b : Bytes} → got a ≡ got b → a ≡ b
got-injective e = cc

pub got-ne-failed : {a : Bytes} → got a ≡ failed → ⊥
got-ne-failed e = cc

pub some-ne-none : {n : ℕ} → some n ≡ none → ⊥
some-ne-none e = cc

pub some_eq : {n m : ℕ} → some n ≡ some m → n ≡ m
some_eq e = cc

pub take_some :
    (s : Bytes) (n : ℕ) → 0 < n → s ≢ [] → (b : ℕ) × (bs : Bytes) × (got (take n s) ≡ got (b ∷ bs))
take_some [] n h ne = absurd (ne refl)
take_some (c ∷ s) zero h ne = absurd (omega arith)
take_some (c ∷ s) (suc n) h ne = (c, take n s, refl)

abbrev pub wire_reads : Reads wire
wire_reads = record {
  pending = λ st. st.0;
  got_within =
      λ st n e. subst (λ x. length x ≤ n) (got-injective e) (omega (arith, length-take n st.0));
  got_pending =
      λ st n e. sym (take-append-drop n st.0) ∙ ap (λ x. x ++ drop n st.0) (got-injective e);
  failed_pending = λ st n e. absurd (got-ne-failed e);
}

abbrev pub wire_delivers : Delivers wire_reads
wire_delivers = record { some_got = λ st n h ne. take_some st.0 n h ne }

abbrev pub wire_writes : Writes wire
wire_writes = record {
  sent = λ st. st.1;
  wrote_all = λ st bs e. (sym (some_eq e), refl);
  wrote_some = λ st bs e. absurd (some-ne-none e);
}

abbrev pub wire_accepts : Accepts wire
wire_accepts = record { accepted = λ st bs. refl }

abbrev pub small_blocks : ServerConfig
small_blocks = set_read_block default 3
