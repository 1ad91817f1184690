-- ===== src/Lib.antt =====
-- A verification library for signal, a Go implementation of the Signal protocol.
--
-- The program: x3dh agrees on a secret from published keys, ratchet turns it into chains of message
-- keys (the double ratchet), session keeps ratchet states and decides which one a message belongs to,
-- spqr has the symmetric chains of the triple ratchet, with one epoch for each agreed secret, senderkeys does the same for groups with one chain per sender, and store keeps the records.
-- crypto wraps the primitives that all of them call.
--
-- Which file models which part:
--   Common.antt          Go's errors and results (errors/errors.go), bytes, uint32 and their encoding,
--                        maps as association lists, a state and error monad for methods on a pointer
--   Crypto.antt          crypto/hkdf.go, crypto/curve25519.go and the AES-GCM part of crypto/aead.go;
--                        Crypto/Laws.antt states what is relied on of the primitives, and
--                        Crypto/Toy.antt has primitives that compute, for the runs;
--                        Crypto/Padding.antt is crypto/aes_cbc.go,
--                        Crypto/CtrHmac.antt crypto/aes_ctr_hmac.go,
--                        Crypto/Kyber.antt crypto/kyber.go,
--                        Crypto/Xeddsa.antt crypto/xeddsa.go and the clamping of crypto/random.go
--   Keys.antt            the types of keys/identity.go, keys/prekey.go and keys/kyber.go; below it
--                        Wire (keys/wire.go), Bundle (keys/bundle.go) and Serialize (keys/serialize.go)
--   X3dh.antt            the types of x3dh/types.go; below it Derive (x3dh/derive.go, x3dh/shared_secret.go),
--                        Initiator and Responder (x3dh/initiator.go, x3dh/responder.go), Agreed the two together,
--                        Serialize the bytes of the initial message (x3dh/serialize.go)
--   Spqr.antt            the data of spqr/chain.go and the directions of spqr/types.go; below it Keys (the keys
--                        of one epoch and direction, and Ideal, what they stand for), Epochs (NewChain,
--                        AddEpoch, SendKey, RecvKey), Serialize (the chain as bytes) and Message
--                        (spqr/message.go). The numbers of
--                        spqr/util.go are in Common/Words
--   Ratchet.antt         the data of package ratchet, and below it
--     Chain              ratchet/chain.go and KDFRoot
--     Encoding           ratchet/header.go
--     Serialize          ratchet/serialize.go
--     Skip               ratchet/skipped.go
--     Turn               DHRatchet (ratchet/dh_ratchet.go), RatchetOnSend
--     Send, Receive      Encrypt and Decrypt (ratchet/message.go), NextSendingMessageKey (ratchet/wire.go)
--     Receive.ForHeader  AdvanceForHeader (ratchet/wire.go), which has the way of a new header a second time
--     Init               InitializeState (ratchet/state.go)
--     History            sequences of calls on one state
--     Delivery, Exchange, Agreement   the sender and the receiver together
--     Runs               the theorems on concrete inputs
--   Store.antt           store/address.go, the records of store/interfaces.go, and the state of
--                        store/memory/memory_store.go; below it Identities, PreKeys, Sessions and
--                        SenderKeys hold its methods
--   SenderKeys.antt      the data of package senderkeys; below it Record (senderkeys/record.go), Chain
--                        (senderkeys/ratchet.go), Cipher (getSenderMessageKey of senderkeys/cipher.go),
--                        Generate (newSendingState of senderkeys/builder.go), Serialize
--                        (senderkeys/serialize.go), Message (senderkeys/message.go) and Group, the cipher and the
--                        builder on the store (senderkeys/cipher.go, senderkeys/builder.go)
--   Session.antt         session/session.go; below it Record and Serialize (session/record.go), Receive
--                        (decryptRatchetMessage of session/cipher.go), Envelope (the envelope of
--                        session/cipher.go), Version (session/version.go), Builder (session/builder.go,
--                        session/pqr.go), Cipher (Encrypt, Decrypt and EncryptWithPreKeyBundle of
--                        session/cipher.go and session/prekey_cipher.go), and Established, which puts the handshake, the initialisation
--                        of both ratchets and the first message together
--
-- How the code corresponds: a method on a pointer is a function from the state to its result and the
-- new state, where Go returns early an error of Common/Errors with the state as the code leaves it. A
-- pointer that may be nil is an Option; receivers and arguments that are checked for nil first are
-- taken as not nil. A [32]byte is a list of bytes. A Go map is an association list; the order of its
-- entries is read by EnforceSessionLimit, where the order is a parameter, and by the serialization of a
-- ratchet state and of a spqr chain, which sort them. A panic of Go is the error `panicked`, which no code of the
-- library returns itself. Random bytes are an argument, `none` where reading them fails. Bytes that
-- are parsed at a moving position are the list that is left (Common/Reader). The standard
-- library and golang.org/x/crypto are the record `Primitives`, and what is relied on are `IsSound`
-- (HKDF-Expand gives the length asked for, AES-GCM opens what it sealed) and `IsAgreement` (X25519
-- gives 32 bytes and commutes). circl's kyber1024 is the record `Kem`, of which `IsKem` states what is relied
-- on; edwards25519 and SHA-512 are the record `Edwards` with the formats, the group laws and the map to
-- Montgomery's form as hypotheses, protowire is the record `Protowire` (`IsWire`); the check of an XEdDSA signature is a parameter of the bundle's validation.
--
-- Bounds: counters are uint32, and their increments wrap. The loop of skipMessageKeys runs on fuel,
-- `until - nr` rounds, which is how often its test can hold, since each round adds one to `nr`. The loop of
-- getSenderMessageKey has `iteration - chainIteration` rounds likewise, and that of
-- EnforceSessionLimit at most as many as sessions are counted, since each round that goes on removes one. The loop over the fields of a
-- sender-key message has as many rounds as the message has bytes, since a tag has at least one. The loop of
-- a spqr key request has `at - ctr` rounds. An epoch of spqr is a uint64 that epochIndex converts to an int: the
-- theorems on epochs take them below 2^63.
--
-- Not modelled: zeroing of buffers and locks (no effect on the result of one call), the generated
-- protobuf code, and, so far,
-- WireCipher, the state machine, the authenticator and the encoding of spqr (a session holds the state of spqr as
-- an opaque value that is written and read by `PqrFormat`), sealed sender and Sesame.
pub mod Common
pub mod Crypto
pub mod Keys
pub mod X3dh
pub mod Ratchet
pub mod Store
pub mod SenderKeys
pub mod Session
pub mod Spqr
