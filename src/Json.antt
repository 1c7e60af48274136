-- ===== src/Json.antt =====
-- The values that `json.loads` returns and that payloads are made of, with Python's operations on
-- them. A `dict` is the list of its items in insertion order.
pub mod Value
pub mod Convert
