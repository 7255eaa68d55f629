-- ===== src/Utils.antt =====
-- library/utils: the string copies, the comparison of content types and the byte literals.
pub mod Copy
pub mod Compare
pub mod BytesCount
