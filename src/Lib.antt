-- ===== src/Lib.antt =====
-- pensar is a C++ library of basic utilities (cpp/src) with the data model of a contact manager on
-- top of it (contact). This library models the parts that carry logic of their own, over lists and
-- natural numbers, and proves what makes each of them correct.
--
-- The parts and their files:
--   * SortedList: cpp/src/sorted_list.hpp, a vector kept in the order of a comparator, with unique
--     elements on demand. The element type and the comparator are parameters; where an order
--     matters, the comparator is a strict weak order. Order has the lower bound, Laws and Search
--     what each operation does, History sequences of calls.
--   * BinaryBuffer: cpp/src/binary_buffer.hpp, a growing byte vector with two positions. The
--     messages of its file operations are values, and the C file functions are arguments.
--   * TriBool and Command: cpp/src/bool.hpp and cpp/src/command.hpp, commands that run and undo,
--     and the composite of at most ten of them. What a command does to the world is a parameter;
--     it may throw. A null or freed pointer is a value of the model, and to call it is a fault.
--     Command.Stream has the binary format of a tree of commands, over ObjectFormat, with the
--     registry that makes the objects to read into.
--   * FixedString: cpp/src/cs.hpp, the string in a fixed array that ends at its first null
--     character, with comparisons that may ignore case and accents. What ICU makes of an accented
--     character is a parameter.
--   * Email: contact/e-mail.hpp and contact/contact.hpp. The checks of an address, and the `Email`
--     record made of two FixedStrings (of 64 and of 255 characters).
--   * PersonName and PhoneNumber: contact/person.hpp and contact/phone.hpp, records of three
--     FixedStrings, and a name on a text stream.
--   * Result: cpp/src/code_util.hpp, a value with a state and a message.
--   * Text: cpp/src/s.hpp, the string functions, in the C locale.
--   * Distance: cpp/src/distance.hpp, the distance of two strings on three rows, and the nearest
--     element of a container. Reference has the distance by recursion over prefixes.
--   * CArray: cpp/src/array.hpp, an array of a fixed size with checked access and comparison of
--     ranges.
--   * ObjectFormat: cpp/src/object.hpp, cpp/src/generator.hpp, contact/person.hpp and
--     cpp/src/equal.hpp, the binary format of objects over BinaryBuffer.
--   * ByteOrder: cpp/src/byte_order.hpp, and the conversion of a span between two byte orders.
--   * WireTypes: cpp/src/endian.hpp, cpp/src/wire_int.hpp and cpp/src/wire_double.hpp, numbers whose
--     storage has one byte order on every machine. The machine is a parameter.
--   * DbConnection: contact/data/db_connection.hpp, the session that borrows a connection of a pool.
--     The pool of the database library is a parameter.
--   * Dao: contact/data/person_dao.hpp, contact_dao.hpp (Phone, Email and Address), role_dao.hpp,
--     org_dao.hpp, visibility_dao.hpp, audit_dao.hpp, search_dao.hpp (Searches) and locale_dao.hpp,
--     the methods that send a statement in a session and read its rows. Calls has them as the calls
--     of a program. What the database does with a statement is a parameter. Sql reads the texts of
--     the statements on persons as SQL, and PersonTable is over a database that does what they say.
--   * OpenMode and TextFile: cpp/src/file.hpp, the modes of a file, and a text file over a stream as
--     the C++ standard describes it. What the system allows is a parameter.
--   * Generator: cpp/src/generator.hpp, identifiers by steps; its binary format is in ObjectFormat.
--   * StopWatch: cpp/src/stop_watch.hpp, over the times that a clock gives.
--   * DataLayout: cpp/src/data.hpp, the checks that a data structure has no padding, and the report
--     of a dumper. What the compiler says of a structure is its data.
--   * MacAddress: cpp/src/mac_address.hpp, the text of the address of a network card.
--   * BinaryText: cpp/src/macos/io_util_macos.hpp, numbers written to a string by their bytes.
--   * FileLines: cpp/src/macos/io_util_macos.hpp, a file read line by line by a handler.
--   * RandomFileName: cpp/src/file.hpp, the generator of random file names, over the numbers drawn.
--   * Constraint: cpp/src/constraint.hpp, constraints on numbers and what they mean when composed.
--   * PoolFactory: cpp/src/factory.hpp, the pool of shared objects, with the count of the owners of
--     each object.
--   * Base: what they share. Tests and Lists have Boolean tests and lists over native numbers;
--     Outcome has a call that returns or throws; Search has `find` of a character.
--
-- A definition has the name of the function it models, in the case of this language. A method
-- that changes its object takes the object last and returns it changed; a method that throws
-- returns an Outcome. A position in a vector or a string is a natural number, and a reference or
-- an iterator is a position or a value. `size_t` wraps at 2 to the 64 where the code can reach that
-- (the count of a pool, the end of a range of a CArray); the sizes of vectors and strings are not
-- bounded.
--
-- Loops: those over a vector or a string are by recursion on it. The loop over the labels of a
-- domain and that of `split` have one more unit of fuel than there are characters, and a round
-- takes one character at least. The loop of `replace_substr`, and `get` of a pool, may go on for ever:
-- their fuel is an argument. A replacement by a shorter string needs a unit for each character and
-- one more, since a round takes a character at least; `get` needs two where a refill adds an object,
-- since it then calls itself once at most. The loop of `convert` has one more unit than there are
-- bytes, and a round passes a value of two bytes at least; the read of a tree of commands has a unit
-- for each composite in another, and one for the innermost command. The loops over the numbers in a
-- string and over the lines of a file have one more unit than there are characters, and a round
-- takes one at least; a random name draws its first character a thousand times at most.
--
-- Not modelled: paths, logs and the systems below them, ICU, the database itself, the macros that
-- generate classes, and the user interface, since what these do is input and output, or the work
-- of other programs.
pub mod Base
pub mod TriBool
pub mod SortedList
pub mod BinaryBuffer
pub mod Command
pub mod FixedString
pub mod Email
pub mod Text
pub mod PoolFactory
pub mod Dao
pub mod Distance
pub mod CArray
pub mod ObjectFormat
pub mod ByteOrder
pub mod WireTypes
pub mod DbConnection
pub mod OpenMode
pub mod TextFile
pub mod Generator
pub mod StopWatch
pub mod Constraint
pub mod PersonName
pub mod PhoneNumber
pub mod Result
pub mod DataLayout
pub mod MacAddress
pub mod RandomFileName
pub mod BinaryText
pub mod FileLines
