-- ===== src/Mpc/Session/Collector.antt =====
-- The result collector of projects/01-mpc-cluster/internal/session/manager.go. The channel `done`
-- is closed where `is_closed` is set, and nowhere else.
use portfolio_itmo.Common.{
  ℕ, ◌≤◌, ◌<◌, ◌≡◌, refl, Bool, true, false, List, [], arith, leb, if◌then◌else◌, length,
}
use portfolio_itmo.Common.Dict.{Dict, insert, length-insert}
use portfolio_itmo.Common.Equality.{same, nat_eq, string_eq}
use Prim.Native.String.{String}

pub record Collector : Type 0 where
  pub expected : ℕ
  pub shares : Dict ℕ (List ℕ)
  pub failed : String
  pub is_closed : Bool

unfoldable pub new_collector : ℕ → Collector
new_collector n = record { expected = n; shares = []; failed = ""; is_closed = false }

-- The branch of `add` for a result with no error.
collect : Collector → ℕ → List ℕ → Collector
collect c node value =
    let shares = insert node value c.shares in
    record c { shares = shares; is_closed = leb c.expected (length shares) }

unfoldable pub add_result : Collector → ℕ → List ℕ → String → Collector
unfolding collect
add_result c node value err_str =
    if c.is_closed
    then c
    else if same err_str ""
    then collect c node value
    else record c { failed = err_str; is_closed = true }

-- What a collector holds: it is closed by an error, or by as many shares as it expects.
pub record IsSettled (c : Collector) : Type 0 where
  pub open_without_error : c.is_closed ≡ false → (c.failed ≡ "") × (length c.shares < c.expected)
  pub full_or_failed : c.is_closed ≡ true → c.failed ≡ "" → c.expected ≤ length c.shares

pub new_collector-IsSettled : (n : ℕ) → 0 < n → IsSettled (new_collector n)
unfolding new_collector
new_collector-IsSettled n h = record {
  open_without_error = λ e. (refl, h);
  full_or_failed = λ e. cc;
}

-- Every result that is added keeps a collector settled.
pub add_result-IsSettled :
    (c : Collector) (node : ℕ) (value : List ℕ) (err_str : String)
    → IsSettled c
    → IsSettled (add_result c node value err_str)
unfolding add_result collect
add_result-IsSettled c node value err_str h = record {
  open_without_error = ground (
    arith,
    h.open_without_error,
    string_eq.beq_iff err_str "",
    length-insert node value c.shares,
  );
  full_or_failed = ground (arith, h.full_or_failed, string_eq.beq_iff err_str "");
}
