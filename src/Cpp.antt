-- ===== src/Cpp.antt =====
-- What the sources use of the C++ library beyond strings: words of an `istringstream`, numbers read
-- and printed. The "C" locale holds throughout.
pub mod Words
pub mod Numbers
