-- ===== src/Http/Response/Reader.antt =====
-- A client that reads a response from a connection that stays open.
use pallette.Base.{ℕ, ◌<◌, ◌≡◌, refl, ap, ◌∙◌, subst, false, List, ◌++◌, some, arith, append_assoc}
use pallette.Base.Tests.{le→leb}
use pallette.Base.Lists.{
  length, length-append, take_all, take-append_eq, drop-append_eq, All, All-append,
}
use pallette.Base.Text.{codes}
use pallette.Buffer.{Buffer}
use pallette.Buffer.Slices.{starts_with}
use pallette.Buffer.Inv.{Holds}
use pallette.Http.Context.{crlf}
use pallette.Http.Context.Lines.{Without}
use pallette.Http.Response.{HttpResponse, code_of, into_buf, append_connection, append_to_buffer}
use pallette.Http.Response.Adds.{
  Appends, append-Appends, then-Appends, lines_text, header_text, append_headers-Appends,
}
use pallette.Http.Response.Head.{
  content_length, read_response, IsLine, read_head_lem, length-lines_text, Prints, CleanHeaders,
  header_lines, length_line, head_lines, response_text, header_text-eq, header_lines-IsLine,
  is_clean-Without,
}

head_lem :
    (ls : List (List ℕ)) (body rest : List ℕ)
    → All IsLine ls
    → content_length ls ≡ some (length body)
    → read_response (lines_text ls ++ (crlf ++ body) ++ rest) ≡ some (ls, body, rest)
unfolding read_response
head_lem ls body rest h c =
    rw
      (
        append_assoc (lines_text ls) (crlf ++ body) rest,
        read_head_lem ls (body ++ rest) (length (lines_text ls ++ (crlf ++ (body ++ rest)))) h room,
        c,
        le→leb (length body) (length (body ++ rest)) (omega (arith, length-append body rest)),
        take-append_eq (length body) body rest refl,
        drop-append_eq (length body) body rest refl,
      )
      refl
  where
    room : length ls < length (lines_text ls ++ (crlf ++ (body ++ rest)))
    room =
        omega (arith, length-lines_text ls, length-append (lines_text ls) (crlf ++ (body ++ rest)))

regroup :
    (s m c l k h b : List ℕ)
    → s ++ (m ++ (c ++ ((l ++ (c ++ (k ++ c))) ++ (h ++ (c ++ b)))))
      ≡ s ++ m ++ (c ++ (l ++ (c ++ (k ++ (c ++ h))))) ++ (c ++ b)
regroup s m c l k h b = simp append_assoc refl

abbrev keep_alive : List ℕ
keep_alive = codes "Connection: Keep-Alive"

module _ (decimal : ℕ → List ℕ) (r : HttpResponse) (open_ : r.close_connection ≡ false)
    (code : Prints decimal (code_of r.status_code)) (size : Prints decimal (length r.body)) where
  into_buf-length :
      into_buf (codes "Content-Length: " ++ (decimal (length r.body) ++ crlf))
      ≡ length_line decimal r ++ crlf
  into_buf-length =
      take_all 31 _ (omega (arith, size.short, length-append (decimal (length r.body)) crlf))

  into_buf-status :
      into_buf (codes "HTTP/1.1 " ++ decimal (code_of r.status_code))
      ≡ codes "HTTP/1.1 " ++ decimal (code_of r.status_code)
  into_buf-status = take_all 31 _ (omega (arith, code.short))

  append_connection-Appends :
      Appends
        (append_connection decimal r)
        (length_line decimal r ++ (crlf ++ (keep_alive ++ crlf)))
  unfolding append_connection
  append_connection-Appends b xs h =
      let (b', e, h') =
        then-Appends _ _ _ _
          (append-Appends
            (into_buf (codes "Content-Length: " ++ (decimal (length r.body) ++ crlf))))
          (append-Appends (keep_alive ++ crlf)) b xs h in
      (
        b',
        simp open_ e,
        subst (λ t. Holds b' (xs ++ t))
            (ap (λ t. t ++ (keep_alive ++ crlf)) into_buf-length
              ∙ append_assoc (length_line decimal r) crlf (keep_alive ++ crlf))
            h',
      )

  pub append_to_buffer-Appends : Appends (append_to_buffer decimal r) (response_text decimal r)
  unfolding append_to_buffer
  append_to_buffer-Appends b xs h =
      let (b', e, h') =
        then-Appends _ _ _ _
          (append-Appends (into_buf (codes "HTTP/1.1 " ++ decimal (code_of r.status_code))))
          (then-Appends _ _ _ _ (append-Appends r.status_message) (
            then-Appends _ _ _ _ (append-Appends crlf) (
              then-Appends _ _ _ _ append_connection-Appends (
                then-Appends _ _ _ _ (append_headers-Appends r.headers)
                  (then-Appends _ _ _ _ (append-Appends crlf) (append-Appends r.body))))))
          b xs h in
      (b', e, subst (λ t. Holds b' (xs ++ t)) whole h')
    where
      whole :
          into_buf (codes "HTTP/1.1 " ++ decimal (code_of r.status_code))
            ++ (r.status_message
                ++ (crlf
                    ++ ((length_line decimal r ++ (crlf ++ (keep_alive ++ crlf)))
                        ++ (header_text r.headers ++ (crlf ++ r.body)))))
          ≡ response_text decimal r
      whole =
          ap
            (λ t.
              t
              ++ (r.status_message
                  ++ (crlf
                      ++ ((length_line decimal r ++ (crlf ++ (keep_alive ++ crlf)))
                          ++ (header_text r.headers ++ (crlf ++ r.body))))))
            into_buf-status
          ∙ ap
              (λ h.
                codes "HTTP/1.1 "
                ++ decimal (code_of r.status_code)
                ++ (r.status_message
                    ++ (crlf
                        ++ ((length_line decimal r ++ (crlf ++ (keep_alive ++ crlf)))
                            ++ (h ++ (crlf ++ r.body))))))
              (header_text-eq r.headers)
          ∙ regroup (codes "HTTP/1.1 " ++ decimal (code_of r.status_code)) r.status_message crlf
              (length_line decimal r) keep_alive (lines_text (header_lines r.headers)) r.body

  module _ (message : Without 13 r.status_message) (headers : CleanHeaders r.headers) where
    head_lines-IsLine : All IsLine (head_lines decimal r)
    head_lines-IsLine = (
      (
        All-append _ (codes "HTTP/1.1 ") _ (is_clean-Without (codes "HTTP/1.1 ") refl)
            (All-append _ (decimal (code_of r.status_code)) r.status_message code.clean message),
        refl,
      ),
      (
        (
          All-append _ (codes "Content-Length: ") _
              (is_clean-Without (codes "Content-Length: ") refl) size.clean,
          refl,
        ),
        ((is_clean-Without keep_alive refl, refl), header_lines-IsLine r.headers headers),
      ),
    )

    content_length_lem : content_length (head_lines decimal r) ≡ some (length r.body)
    unfolding content_length starts_with
    content_length_lem = rw size.value refl

    -- On a connection that stays open, a response is put behind what the buffer holds, and a client
    -- reads the lines of its head, its body, and leaves what follows: `Content-Length` is right. The
    -- status message and the headers have no carriage return, and the numbers are printed in full.
    pub read_response-append_to_buffer :
        (b : Buffer) (xs : List ℕ)
        → Holds b xs
        → (b' : Buffer) × (t : List ℕ) × (append_to_buffer decimal r b ≡ some b')
          × Holds b' (xs ++ t)
          × ((rest : List ℕ)
              → read_response (t ++ rest) ≡ some (head_lines decimal r, r.body, rest))
    read_response-append_to_buffer b xs h =
        let (b', e, h') = append_to_buffer-Appends b xs h in
        (
          b',
          response_text decimal r,
          e,
          h',
          λ rest. head_lem (head_lines decimal r) r.body rest head_lines-IsLine content_length_lem,
        )
