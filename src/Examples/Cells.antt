-- ===== src/Examples/Cells.antt =====
-- A concrete `Radium` for the examples.
use bitvec_sgx.Base.{bit_and, bit_or, bit_xor, refl}
use bitvec_sgx.Access.{Radium}

-- Plain cells: each operation does what its documentation says.
abbrev pub plain_cells : Radium
plain_cells = record {
  load = λ c. c;
  store = λ c x. x;
  fetch_and = bit_and;
  fetch_or = bit_or;
  fetch_xor = bit_xor;
  load_lem = λ c. refl;
  store_lem = λ c x. refl;
  fetch_and_lem = λ c x. refl;
  fetch_or_lem = λ c x. refl;
  fetch_xor_lem = λ c x. refl;
}
